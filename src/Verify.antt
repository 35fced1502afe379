-- ===== src/Verify.antt =====
-- cmd/s3reg/verify.go: the stored artifacts of an index against the digests in it. SHA-256 in
-- hexadecimal is the parameter `digest`; what is printed is left out.
pub mod Matching
use s3_registry.Prelude.{
  ℕ, ◌+◌, Bool, true, false, not, ◌&&◌, ◌||◌, Option, none, some, List, [], ◌∷◌, ◌++◌, length,
  if◌then◌else◌,
}
use s3_registry.Prelude.Int.{ℤ, pos}
use s3_registry.Text.{Str, codes, ◌==◌}
use s3_registry.Dict.{Dict}
use s3_registry.Result.{Result, ok, err, service, failed_verification, ◌>>=◌}
use s3_registry.Index.{Artifact, Version, Index, entries}
use s3_registry.Store.{Service, Codec, get_index, get_object}

-- hashObject of cmd/s3reg/reindex.go, on what GetObject returned
abbrev pub hash_body : (Str → Str) → Option Str × ℤ → Result (Str × ℤ)
hash_body digest (none, size) = err (service (codes "read object"))
hash_body digest (some body, size) = ok (digest body, pos (length body))

-- The lines of the report, a version and an os-arch each, and the number of artifacts read.
pub record Report : Type 0 where
  pub mismatches : List (Str × Str)
  pub checked : ℕ

-- one artifact, with its hash
abbrev pub note : Str → Str → Artifact → Result (Str × ℤ) → Report → Report
note version os_arch a (err e) r = record r { mismatches = r.mismatches ++ (version, os_arch) ∷ [] }
note version os_arch a (ok (sum, size)) r =
    if sum == a.sha256
    then record r { checked = r.checked + 1 }
    else record { checked = r.checked + 1; mismatches = r.mismatches ++ (version, os_arch) ∷ [] }

-- version != "" && v.Version != version
abbrev pub skips : Str → Version → Bool
skips version v = not (version == []) && not (v.version == version)

abbrev pub verdict : Report → Result ℕ
verdict r = elim r.mismatches [ [] ↦ ok r.checked | _ ∷ _ ↦ err failed_verification ]

module _ (S : Service) (digest : Str → Str) (b : S.Bucket) where
  -- hashObject
  unfoldable pub hash_object : Str → Result (Str × ℤ)
  unfolding get_object
  hash_object key = do out ← get_object S key b; hash_body digest out

  -- the loop over the artifacts of a version
  unfoldable pub check_artifacts : Str → Dict Artifact → Report → Report
  unfolding hash_object
  check_artifacts version [] r = r
  check_artifacts version ((os_arch, a) ∷ rest) r =
      check_artifacts version rest (note version os_arch a (hash_object a.key) r)

  -- the loop over the versions
  unfoldable pub check_versions : Str → List Version → Report → Report
  unfolding check_artifacts
  check_versions version [] r = r
  check_versions version (v ∷ vs) r =
      check_versions version vs
        (if skips version v then r else check_artifacts v.version (entries v.artifacts) r)

  -- runVerify; a success is the number of artifacts checked.
  unfoldable pub run_verify : Codec → Str → Str → Result ℕ
  unfolding get_index check_versions
  run_verify C tool version = do
    (idx, etag) ← get_index S C tool b
    verdict (check_versions version idx.versions (record { mismatches = []; checked = 0 }))
