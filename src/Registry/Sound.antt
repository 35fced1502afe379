-- ===== src/Registry/Sound.antt =====
-- What a bucket of the registry owes its users: every artifact that a tool's index names is there, with
-- the digest and the size that the index states, at a key that parseArtifactKey of
-- cmd/s3reg/reindex.go reads as its version and os-arch. publish and rm of
-- cmd/s3reg keep a bucket so, reindex makes it so, and verify checks it.
pub mod Entries
pub mod Moved
pub mod Pending
pub mod Publishing
pub mod Deleting
pub mod Removing
pub mod Reindexing
pub mod Verifying
pub mod History
use s3_registry.Prelude.{
  ◌≡◌, true, false, Option, none, some, List, [], ◌⊎◌, inl, inr, length, sym, ◌∙◌, All,
}
use s3_registry.Prelude.Int.{pos}
use s3_registry.Text.{Str, ◌==◌, contains}
use s3_registry.Dict.{NodupKeys}
use s3_registry.Result.{ok}
use s3_registry.Index.{Artifact, Version, Index, entries}
use s3_registry.Index.View.{artifact_at, IsDistinct}
use s3_registry.Store.{
  Service, Codec, Api, done, failed, ApiError, Condition, load, index_key, is_precondition_failed,
}
use s3_registry.Store.Laws.{Stored, S3, index_in}
use s3_registry.Reindex.{parse_artifact_key}

-- What the keys of a bucket hold
abbrev pub Content : Type 0
Content = Str → Option Stored

-- The object of an artifact is there, as the index describes it.
abbrev pub IsBacked : (Str → Str) → Content → Artifact → Type 0
IsBacked digest at a =
    (o : Stored) × (at a.key ≡ some o) × (digest o.body ≡ a.sha256) × (a.size ≡ pos (length o.body))

-- The index can be read and has no duplicates, and each of its artifacts has a key of its version and
-- os-arch, and its object unless the key is among the `pending` ones.
pub record IsSound (C : Codec) (digest : Str → Str) (tool : Str) (pending : List Str) (at : Content)
    : Type 0 where
  pub idx : Index
  pub read : index_in C tool (at (index_key tool)) ≡ ok idx
  pub distinct : IsDistinct idx.versions
  pub keyed :
      (v x : Str) (a : Artifact)
      → artifact_at v x idx.versions ≡ some a
      → parse_artifact_key tool a.key ≡ some (v, x)
  pub backed :
      (v x : Str) (a : Artifact)
      → artifact_at v x idx.versions ≡ some a
      → (contains a.key pending ≡ true) ⊎ IsBacked digest at a

-- json.Unmarshal makes Go maps, which hold a key once.
abbrev pub IsMaps : List Version → Type 0
IsMaps = All (λ (v : Version). NodupKeys (entries v.artifacts))

pub record DecodesMaps (C : Codec) : Type 0 where
  pub maps : (text : Str) (i : Index) → load C text ≡ ok i → IsMaps i.versions

-- S3 on calls that change one object or none: a write that is refused for its condition changes
-- nothing, and a deletion changes no other object, whatever it answers, and removes its own if it
-- answers success.
pub record IsExact (S : Service) (s3 : S3 S) : Type 0 where
  pub refused :
      (b : S.Bucket) (k s : Str) (c : Condition) (b' : S.Bucket) (e : ApiError)
      → S.put_object b k s c ≡ (b', failed e)
      → is_precondition_failed e ≡ true
      → (j : Str) → s3.content b' j ≡ s3.content b j
  pub deleted :
      (b : S.Bucket) (k : Str)
      → (j : Str) → k == j ≡ false
      → s3.content (S.delete_object b k).0 j ≡ s3.content b j
  pub gone :
      (b : S.Bucket) (k : Str) (b' : S.Bucket)
      → S.delete_object b k ≡ (b', done tt)
      → s3.content b' k ≡ none
