-- ===== src/Rm/Removed.antt =====
-- What a run of runRm that succeeds has done to the index and to the objects.
use s3_registry.Prelude.{ℕ, ◌≡◌, Bool, true, false, ◌||◌, none, some, []}
use s3_registry.Text.{Str, ◌==◌, contains}
use s3_registry.Dict.{Dict}
use s3_registry.Instant.{Instant}
use s3_registry.Result.{Result, ok}
use s3_registry.Index.{Artifact, Index}
use s3_registry.Index.View.{artifact_at, IsDistinct}
use s3_registry.Index.Removal.{IsRemoval}
use s3_registry.Store.{Service, Codec, index_key, get_index}
use s3_registry.Store.Laws.{S3, index_in}
use s3_registry.Update.{Others}
use s3_registry.Update.Atomic.{Committed}
use s3_registry.Update.Relied.{Spares}
use s3_registry.Rm.{removed_keys, rm_change, os_arch_of}
use s3_registry.Registry.Sound.{IsExact}

module _ (S : Service) (s3 : S3 S) (exact : IsExact S s3) (others : Others S.Bucket)
    (K : Str → Type 0) (spares : Spares S s3 others K) where
  module _ (C : Codec) (clock : ℕ → Instant) (tool version os arch : Str) where
    abbrev os_arch : Str
    os_arch = os_arch_of os arch

    -- The bucket's index can be read and names no version twice.
    abbrev pub HasDistinct : S.Bucket → Type 0
    HasDistinct b =
        (i : Index) × (index_in C tool (s3.content b (index_key tool)) ≡ ok i)
        × IsDistinct i.versions

    -- What a success of rm did: one write that removed what is meant from the index as it was then,
    -- and after it the deletion of the objects of what the index named so at the start.
    pub record IsRemoved (b b' : S.Bucket) : Type 0 where
      pub start : Index
      pub etag : Str
      pub read : get_index S C tool b ≡ ok (start, etag)
      pub mid : S.Bucket
      pub update : Committed S s3 C tool (rm_change clock version os_arch) mid
      pub was_there : Bool
      pub removal :
          IsRemoval (clock update.round) version os_arch update.old update.changed was_there
      pub gone :
          (x : Str) (a : Artifact)
          → artifact_at version x start.versions ≡ some a
          → (os_arch == [] || os_arch == x) ≡ true
          → K a.key
          → s3.content b' a.key ≡ none
      pub kept :
          (j : Str)
          → K j
          → contains j (removed_keys version os_arch start.versions) ≡ false
          → s3.content b' j ≡ s3.content mid j
