-- ===== src/Tests/UpdateCases.antt =====
-- updateIndex against the bucket in memory, with another publisher at work.
use s3_registry.Prelude.{ℕ, zero, suc, ◌≡◌, refl, some, none, [], ◌∷◌, arith, Option}
use s3_registry.Text.{Str, codes, ◌==◌}
use s3_registry.Dict.{Dict, insert, lookup}
use s3_registry.Result.{Result, ok}
use s3_registry.Index.{Index}
use s3_registry.Store.{index_key, load, get_index, put_index}
use s3_registry.Store.Laws.{Stored, index_in}
use s3_registry.Update.{Others, update_index}
use s3_registry.Update.Atomic.{Committed, update_index-Committed}
use s3_registry.Update.Progress.{CanUpdate, update_index-progress}
use s3_registry.Tests.Memory.{memory, memory-S3, memory-IsUp, toy_codec}

-- Another publisher writes the index before the first write of this one, and then rests.
abbrev intrude : ℕ → Dict Str → Dict Str
intrude zero b = insert (index_key (codes "tool")) (codes "theirs") b
intrude (suc n) b = b

abbrev rival : Others (Dict Str)
rival = record { before_read = λ n b. b; before_write = intrude; before_object = λ n b. b }

abbrev rename : ℕ → Index → Result Index
rename n i = ok (record i { name = 33 ∷ i.name })

abbrev after : Dict Str
after = (index_key (codes "tool"), codes "!theirs") ∷ []

-- The first attempt meets a conflict, and the second applies the change to their index.
second_attempt : update_index memory toy_codec rival (codes "tool") rename [] ≡ (after, ok tt)
unfolding update_index get_index put_index insert lookup ◌==◌
second_attempt = refl

update_index-Committed_example : Committed memory memory-S3 toy_codec (codes "tool") rename after
update_index-Committed_example =
    update_index-Committed memory memory-S3 toy_codec (codes "tool") rival rename [] after
      second_attempt

changes :
    (n : ℕ) (o : Option Stored)
    → (i : Index) × (j : Index) × (text : Str) × (index_in toy_codec (codes "tool") o ≡ ok i)
      × (rename n i ≡ ok j)
      × (toy_codec.marshal j ≡ some text)
unfolding load
changes n none = (_, _, _, refl, refl, refl)
changes n (some o) = (_, _, _, refl, refl, refl)

can : CanUpdate memory memory-S3 memory-IsUp toy_codec (codes "tool") rival rename (λ b. Unit)
can = record {
  on_read = λ n b p. p;
  on_write = λ n b p. p;
  refused = λ b b' text c e p h. p;
  changes = λ n b p. changes n (memory-S3.content b (index_key (codes "tool")));
}

update_index-progress_example :
    (b' : Dict Str) × (update_index memory toy_codec rival (codes "tool") rename [] ≡ (b', ok tt))
update_index-progress_example =
    update_index-progress memory memory-S3 memory-IsUp toy_codec (codes "tool") rival rename
      (λ b. Unit) can 1 [] tt (omega arith) (λ b p. refl)
