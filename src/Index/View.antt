-- ===== src/Index/View.antt =====
-- What a reader of an index sees: the first entry of a version, and its artifacts.
use s3_registry.Prelude.{
  ℕ, zero, suc, ◌≤◌, ◌≡◌, refl, Bool, true, false, Option, none, some, List, [], ◌∷◌, ◌++◌, map,
  arith, if◌then◌else◌,
}
use s3_registry.Text.{Str, ◌==◌, eq_iff, count, contains}
use s3_registry.Dict.{lookup}
use s3_registry.Result.{must}
use s3_registry.Instant.{Instant, zero_time}
use s3_registry.Index.{Artifact, Version, entries, find_version, at}

abbrev pub is_some {ℓ} : {A : Type ℓ} → Option A → Bool
is_some none = false
is_some (some _) = true

-- The texts of the versions.
abbrev pub names : List Version → List Str
names = map (λ (v : Version). v.version)

-- The first entry of a version, which is the one that the program reads.
unfoldable pub version_at : Str → List Version → Option Version
version_at k [] = none
version_at k (v ∷ vs) = if v.version == k then some v else version_at k vs

abbrev pub artifact_in : Str → Option Version → Option Artifact
artifact_in oa none = none
artifact_in oa (some v) = lookup oa (entries v.artifacts)

abbrev pub created_in : Option Version → Instant
created_in none = zero_time
created_in (some v) = v.created

-- The artifact that the index names for a version and an os-arch.
abbrev pub artifact_at : Str → Str → List Version → Option Artifact
artifact_at k oa vs = artifact_in oa (version_at k vs)

-- No version has two entries.
abbrev pub IsDistinct : List Version → Type 0
IsDistinct vs = (k : Str) → count k (names vs) ≤ 1

pub version_at-append :
    (k : Str) (vs ws : List Version)
    → version_at k (vs ++ ws) ≡ elim (version_at k vs) [ none ↦ version_at k ws | some v ↦ some v ]
unfolding version_at
version_at-append k [] ws = refl
version_at-append k (v ∷ vs) ws = ground (arith, version_at-append k vs ws)

pub is_some-version_at :
    (k : Str) (vs : List Version) → is_some (version_at k vs) ≡ contains k (names vs)
unfolding version_at contains
is_some-version_at k [] = refl
is_some-version_at k (v ∷ vs) = ground (arith, is_some-version_at k vs)

pub version-version_at :
    (k : Str) (vs : List Version) (v : Version) → version_at k vs ≡ some v → v.version ≡ k
unfolding version_at
version-version_at k [] v h = cc
version-version_at k (x ∷ vs) v h = ground (arith, version-version_at k vs v, eq_iff x.version k)

-- What findVersion finds is the first entry, at a position in range.
pub at-find_version :
    (k : Str) (vs : List Version) (n : ℕ)
    → find_version k vs ≡ some n
    → at n vs ≡ must (version_at k vs)
unfolding find_version at version_at
at-find_version k [] n h = absurd (cc)
at-find_version k (x ∷ vs) zero h = ground arith
at-find_version k (x ∷ vs) (suc n) h = ground (arith, at-find_version k vs n)

pub is_some-find_version :
    (k : Str) (vs : List Version) → is_some (find_version k vs) ≡ is_some (version_at k vs)
unfolding find_version version_at
is_some-find_version k [] = refl
is_some-find_version k (x ∷ vs) = ground (arith, is_some-find_version k vs)
