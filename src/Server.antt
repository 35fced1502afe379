-- ===== src/Server.antt =====
-- internal/server: the bearer check, the index cache and the four operations of the HTTP API. huma's
-- decoding of requests and the router are not modelled: an operation takes its decoded input.
pub mod Auth
pub mod Cached
pub mod Answers
pub mod Flights
pub mod Routes
pub mod Serving
pub mod Guarded
pub mod Replies
use s3_registry.Prelude.{
  ℕ, Bool, true, false, not, ◌&&◌, ◌||◌, Option, none, some, List, [], ◌∷◌, ◌++◌, map,
  if◌then◌else◌, eqb, leb,
}
use s3_registry.Prelude.Int.{ℤ, ltb_ℤ}
use s3_registry.Text.{Str, codes, ◌==◌, has_prefix, strip_prefix}
use s3_registry.Text.Unicode.{Unicode, trim_space}
use s3_registry.Dict.{Dict, lookup, insert}
use s3_registry.Instant.{Instant, Duration, sub}
use s3_registry.Result.{Error, Result, ok, err, not_found}
use s3_registry.Semver.{Library, resolve}
use s3_registry.Index.{
  Artifact, Version, Index, sort_versions, version_strings, releases, resolve_version,
}

-- An HTTP answer: a body, or an error status.
pub data Answer {ℓ} (A : Type ℓ) : Type ℓ where
  success : A → Answer A
  error : ℕ → Answer A

-- `auth` has the prefix "Bearer " and what follows is the token
unfoldable pub bearer_ok : Unicode → Str → Str → Bool
unfolding trim_space strip_prefix
bearer_ok u token auth = elim (strip_prefix auth (codes "Bearer ")) [
  | none ↦ false
  | some rest ↦ trim_space u rest == token
]

-- authMiddleware: whether the request is passed on; otherwise the answer is 401.
unfoldable pub passes : Unicode → Str → Str → Str → Bool
unfolding bearer_ok has_prefix
passes u token path auth =
    if not (token == []) && has_prefix path (codes "/tools") then bearer_ok u token auth else true

pub record CacheEntry : Type 0 where
  pub idx : Index
  pub fetched_at : Instant

abbrev pub is_not_found : Error → Bool
is_not_found not_found = true
is_not_found _ = false

-- mapStoreErr
unfoldable pub map_store_err {ℓ} : {A : Type ℓ} → Error → Answer A
map_store_err e = if is_not_found e then error 404 else error 500

-- An entry of the cache that is within its time
unfoldable pub fresh : Duration → Instant → Option CacheEntry → Option Index
unfolding sub
fresh ttl now none = none
fresh ttl now (some e) = if ltb_ℤ (sub now e.fetched_at) ttl then some e.idx else none

pub record Release : Type 0 where
  pub version : Str
  pub created_at : Instant

pub record Versions : Type 0 where
  pub versions : List Str
  pub releases : List Release

pub record Download : Type 0 where
  pub url : Str
  pub sha256 : Str
  pub size : ℤ
  pub version : Str

module _ (L : Library) where
  -- The fetch of a miss, with what GetIndex returns and the time of its storing.
  unfoldable pub fetch :
      Str → Result (Index × Str) → Instant → Dict CacheEntry → Dict CacheEntry × Result Index
  fetch tool (err e) stored entries = (entries, err e)
  fetch tool (ok (idx, etag)) stored entries = elim (sort_versions L idx) [
    | err e ↦ (entries, err e)
    | ok sorted ↦ (insert tool (record { idx = sorted; fetched_at = stored }) entries, ok sorted)
  ]

  -- indexCache.Get
  unfoldable pub cache_get :
      Duration
      → Str
      → Instant
      → Result (Index × Str)
      → Instant
      → Dict CacheEntry
      → Dict CacheEntry × Result Index
  unfolding fresh fetch
  cache_get ttl tool now upstream stored entries = elim (fresh ttl now (lookup tool entries)) [
    | some idx ↦ (entries, ok idx)
    | none ↦ fetch tool upstream stored entries
  ]

  -- The operations, on the index that the cache returned.
  unfoldable pub list_versions : Result Index → Answer Versions
  unfolding map_store_err version_strings releases
  list_versions (err e) = map_store_err e
  list_versions (ok idx) = success (record {
    versions = version_strings idx;
    releases =
        map
          (λ (r : s3_registry.Index.Release). record {
            version = r.version;
            created_at = r.created;
          })
          (releases idx);
  })

  unfoldable pub resolve_range : Str → Result Index → Answer Str
  unfolding map_store_err
  resolve_range range (err e) = map_store_err e
  resolve_range range (ok idx) = elim (resolve L (version_strings idx) range) [
    | err e ↦ error 422
    | ok v ↦ success v
  ]

  -- the end of getArtifact, with the presigned URL
  unfoldable pub present : Version → Artifact → Result Str → Answer Download
  present ver art (err e) = error 500
  present ver art (ok url) =
      success (record { url = url; sha256 = art.sha256; size = art.size; version = ver.version })

  -- getArtifact; `presign` is what PresignGet returns for a key.
  unfoldable pub get_artifact :
      Str → Str → Str → (Str → Result Str) → Result Index → Answer Download
  unfolding map_store_err present
  get_artifact version os arch presign idx =
      if os == [] || arch == [] then error 422 else elim idx [
        | err e ↦ map_store_err e
        | ok i ↦ elim (resolve_version L version (os ++ codes "-" ++ arch) i) [
          | err e ↦ error 404
          | ok (ver, art) ↦ present ver art (presign art.key)
        ]
      ]

-- listTools; a nil slice and an empty one are both the empty list.
unfoldable pub list_tools : Result (List Str) → Answer (List Str)
list_tools (err e) = error 500
list_tools (ok tools) = success tools
