-- ===== src/Reindex/Run.antt =====
-- runReindex of cmd/s3reg/reindex.go as a whole.

use s3_registry.Prelude.{ℕ, ◌≡◌, none, some, List, [], ◌++◌, All, arith}
use s3_registry.Prelude.Int.{ℤ}
use s3_registry.Text.{Str, codes}
use s3_registry.Dict.{Dict}
use s3_registry.Instant.{Instant}
use s3_registry.Result.{ok}
use s3_registry.Semver.{Library, IsLawful}
use s3_registry.Index.{Index}
use s3_registry.Store.{Service, Codec, index_key, get_index}
use s3_registry.Store.Listing.{Object, list_objects}
use s3_registry.Store.Laws.{Stored, S3}
use s3_registry.Update.{Others}
use s3_registry.Verify.{hash_object}
use s3_registry.Reindex.{current_times, rebuild, reindex_listed, run_reindex}
use s3_registry.Reindex.Times.{time_in}
use s3_registry.Reindex.Rebuilt.{IsRebuilt, rebuild_lem}
use s3_registry.Reindex.Overwriting.{write_rounds-replaces}

-- The bucket holds the text of an index under the tool.
abbrev pub HoldsIndex : (S : Service) → S3 S → Codec → Str → S.Bucket → Index → Type 0
HoldsIndex S s3 C tool b idx =
    (text : Str) × (o : Stored) × (C.marshal idx ≡ some text)
    × (s3.content b (index_key tool) ≡ some o)
    × (o.body ≡ text)

module _ (L : Library) (law : IsLawful L) (S : Service) (s3 : S3 S) (C : Codec) (digest : Str → Str)
    (others : Others S.Bucket) (clock : ℕ → Instant) (tool : Str) where
  pub some_eq : {A : Type 0} (x y : A) → some x ≡ some y → x ≡ y
  some_eq x y h = ground arith

  listed_run :
      (objs : List Object) (idx : Index) (b b' : S.Bucket)
      → rebuild L (hash_object S digest b) clock tool objs (get_index S C tool b) ≡ ok idx
      → reindex_listed L S C digest others clock tool objs b ≡ (b', ok tt)
      → HoldsIndex S s3 C tool b' idx
  unfolding reindex_listed
  listed_run objs idx b b' run h =
      let (text, o, encoded, at, same, _) =
        write_rounds-replaces S C others tool idx s3 b b' (rw (run, reindex_listed) at h) in
      (text, o, encoded, at, same)

  -- If the listing ends and its objects and the current index can be read, a reindex that succeeds leaves
  -- the bucket with the text of the index that the listed objects and the current index describe.
  pub run_reindex_lem :
      (sums : Str → Str × ℤ) (fuel : ℕ) (objs : List Object) (created : Dict Instant)
      (b b' : S.Bucket)
      → list_objects S fuel (tool ++ codes "/") none [] b ≡ some (ok objs)
      → All (λ (obj : Object). hash_object S digest b obj.key ≡ ok (sums obj.key)) objs
      → current_times (get_index S C tool b) ≡ ok created
      → run_reindex L S C digest others clock tool fuel b ≡ some (b', ok tt)
      → (idx : Index) × IsRebuilt tool sums L (time_in (get_index S C tool b)) objs idx
        × HoldsIndex S s3 C tool b' idx
  unfolding run_reindex
  run_reindex_lem sums fuel objs created b b' listing read times h =
      let (idx, run, built) =
        rebuild_lem tool sums L law (hash_object S digest b) clock objs (get_index S C tool b)
          created read times in
      (idx, built, listed_run objs idx b b' run (some_eq _ _ (rw (listing, run_reindex) at h)))
