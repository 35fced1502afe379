-- ===== src/Tests/RegistryCases.antt =====
-- Publishers whose updates interleave, at a bucket in memory.
use s3_registry.Prelude.{ℕ, ◌≡◌, refl, ap, none, some, [], ◌∷◌, arith, zero, suc, ◌++◌}
use s3_registry.Prelude.Int.{pos}
use s3_registry.Text.{Str, codes, ◌==◌, count, contains}
use s3_registry.Dict.{Dict, lookup, insert}
use s3_registry.Result.{Result, ok}
use s3_registry.Index.{Index, new, sort_versions, upsert, find_version, modify}
use s3_registry.Index.View.{artifact_at, IsDistinct}
use s3_registry.Store.{index_key, get_index, condition_of}
use s3_registry.Semver.{sort_ascending}
use s3_registry.Store.{is_no_such_key}
use s3_registry.Publish.{StagedArtifact, publish_change}
use s3_registry.Update.{found_or_new}
use s3_registry.Update.Interleaved.{
  System, holding, Sends, reads, commits, refused, Reach, start, next,
}
use s3_registry.Store.Laws.{index_in}
use s3_registry.Update.Interleaved.History.{History, Reach-History}
use s3_registry.Registry.{Job, publishing, change_of, replay}
use s3_registry.Tests.Numbers.{numbers, numbers-IsLawful}
use s3_registry.Registry.Replay.{Reach-IsReplay}
use s3_registry.Tests.Memory.{memory, memory-S3, memory-S3_absent}
use s3_registry.Tests.ShortCodec.{short_codec, short_codec-KeepsView}

abbrev staged_of : Str → StagedArtifact
staged_of file = record {
  os_arch = codes "o-a";
  key = file;
  path = file;
  art = record { key = file; sha256 = []; size = pos 3 };
}

-- one publisher of 7 and many of 8
abbrev pub jobs : ℕ → Job
jobs zero = publishing (codes "7") (staged_of (codes "a") ∷ [])
jobs (suc i) = publishing (codes "8") (staged_of (codes "b") ∷ [])

abbrev mutate : ℕ → ℕ → Index → Result Index
mutate i n idx = change_of numbers (λ n m. 9) (codes "t") (jobs i) n idx

abbrev text_of_7 : Str
text_of_7 = codes "7a" ++ 3 ∷ codes "o-a"

abbrev text_of_8 : Str
text_of_8 = codes "8b" ++ 3 ∷ codes "o-a"

abbrev made : Str → Str → Index
made version file = record {
  name = codes "t";
  updated = 9;
  versions =
      record {
        version = version;
        created = 9;
        artifacts = some ((codes "o-a", (staged_of file).art) ∷ []);
      }
      ∷ [];
}

abbrev At : System (Dict Str) → Type 0
At = Reach memory memory-S3 short_codec (codes "t") mutate []

abbrev both_read : System (Dict Str)
both_read = record {
  bucket = [];
  held =
      holding (holding (λ i. none) 0 (some (new (codes "t"), []))) 1 (some (new (codes "t"), []));
  log = [];
}

first-Sends : Sends memory memory-S3 short_codec (codes "t") mutate both_read 0 0 text_of_7 []
unfolding change_of publish_change upsert sort_versions find_version modify lookup insert contains
    ◌==◌ new sort_ascending
first-Sends = record {
  idx = new (codes "t");
  changed = made (codes "7") (codes "a");
  read = refl;
  change = refl;
  encoded = refl;
}

abbrev pub after_7 : System (Dict Str)
after_7 = record {
  bucket = (codes "t/index.json", text_of_7) ∷ [];
  held = holding both_read.held 0 none;
  log = record { writer = 0; round = 0; text = text_of_7 } ∷ [];
}

second-Sends : Sends memory memory-S3 short_codec (codes "t") mutate after_7 1 0 text_of_8 []
unfolding change_of publish_change upsert sort_versions find_version modify lookup insert contains
    ◌==◌ new sort_ascending
second-Sends = record {
  idx = new (codes "t");
  changed = made (codes "8") (codes "b");
  read = refl;
  change = refl;
  encoded = refl;
}

-- both read that there is no index; the first writes it, and the second is refused
pub reached : At (record after_7 { held = holding after_7.held 1 none })
unfolding index_key get_index condition_of lookup insert ◌==◌ found_or_new is_no_such_key
reached =
    next
      (next (next (next start (reads 0 _ [] refl)) (reads 1 _ [] refl))
        (commits 0 0 text_of_7 [] _ first-Sends refl))
      (refused 1 0 text_of_8 [] _ _ second-Sends refl refl)

Reach-History_example :
    History memory memory-S3 short_codec
      (codes "t")
      mutate
      (memory-S3.content [] (index_key (codes "t")))
      after_7.log
      (memory-S3.content after_7.bucket (index_key (codes "t")))
Reach-History_example = Reach-History memory memory-S3 short_codec (codes "t") mutate [] reached

pub new-IsDistinct : IsDistinct (new (codes "t")).versions
unfolding new count
new-IsDistinct k = omega arith

pub absent :
    index_in short_codec (codes "t") (memory-S3.content [] (index_key (codes "t")))
    ≡ ok (new (codes "t"))
unfolding lookup
absent = ap (index_in short_codec (codes "t")) (memory-S3_absent [] (index_key (codes "t")) refl)

Reach-IsReplay_example :
    (j : Index) × (index_in short_codec
        (codes "t")
        (memory-S3.content after_7.bucket (index_key (codes "t")))
      ≡ ok j)
    × IsDistinct j.versions
    × ((v x : Str)
        → artifact_at v x j.versions
          ≡ replay jobs after_7.log (λ v x. artifact_at v x (new (codes "t")).versions) v x)
Reach-IsReplay_example =
    Reach-IsReplay numbers memory memory-S3 short_codec (λ n m. 9) (codes "t") jobs []
      (new (codes "t")) numbers-IsLawful short_codec-KeepsView absent new-IsDistinct reached
