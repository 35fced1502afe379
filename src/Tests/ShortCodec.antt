-- ===== src/Tests/ShortCodec.antt =====
-- A codec for indexes of one artifact at most, which keeps what they name.
use s3_registry.Prelude.{
  some-injective, ℕ, ◌≡◌, refl, sym, ◌∙◌, Option, none, some, List, [], ◌∷◌, if◌then◌else◌, arith,
  subst,
}
use s3_registry.Prelude.Int.{ℤ, pos, negsuc}
use s3_registry.Text.{Str, ◌==◌, count}
use s3_registry.Dict.{Dict, lookup}
use s3_registry.Instant.{zero_time}
use s3_registry.Result.{ok}
use s3_registry.Index.{Artifact, Version, Index, entries}
use s3_registry.Index.View.{version_at, artifact_at, IsDistinct}
use s3_registry.Store.{Codec, load}
use s3_registry.Registry.{KeepsView}

-- The version's byte, the key's, the size, and the os-arch
abbrev shape_artifact : ℕ → Str → Str → Str → ℤ → Option Str
shape_artifact c [] oa sum size = none
shape_artifact c (d ∷ e ∷ s) oa sum size = none
shape_artifact c (d ∷ []) oa (x ∷ sum) size = none
shape_artifact c (d ∷ []) oa [] (negsuc n) = none
shape_artifact c (d ∷ []) oa [] (pos n) = some (c ∷ d ∷ n ∷ oa)

abbrev shape_version : Str → Dict Artifact → Option Str
shape_version [] m = none
shape_version (c ∷ e ∷ s) m = none
shape_version (c ∷ []) [] = none
shape_version (c ∷ []) (p ∷ q ∷ m) = none
shape_version (c ∷ []) ((oa, a) ∷ []) = shape_artifact c a.key oa a.sha256 a.size

abbrev shape : List Version → Option Str
shape [] = some []
shape (v ∷ w ∷ vs) = none
shape (v ∷ []) = shape_version v.version (entries v.artifacts)

abbrev one_of : ℕ → ℕ → ℕ → Str → Version
one_of c d n oa = record {
  version = c ∷ [];
  created = zero_time;
  artifacts = some ((oa, record { key = d ∷ []; sha256 = []; size = pos n }) ∷ []);
}

abbrev versions_of : Str → Option (List Version)
versions_of [] = none
versions_of (c ∷ []) = none
versions_of (c ∷ d ∷ []) = none
versions_of (c ∷ d ∷ n ∷ oa) = some (one_of c d n oa ∷ [])

abbrev pub short_codec : Codec
short_codec = record {
  unmarshal = λ s. some (record { name = []; updated = zero_time; versions = versions_of s });
  marshal = λ i. shape i.versions;
}

-- What an index of one version names
abbrev sees : Str → Dict Artifact → Str → Str → Option Artifact
sees version m v x = if version == v then lookup x m else none

artifact_at-sees :
    (ver : Version) (v x : Str)
    → artifact_at v x (ver ∷ []) ≡ sees ver.version (entries ver.artifacts) v x
unfolding version_at
artifact_at-sees ver v x = ground arith

one_IsDistinct : (v : Version) → IsDistinct (v ∷ [])
unfolding count
one_IsDistinct v k = ground arith

abbrev IsKept : Str → (Str → Str → Option Artifact) → Type 0
IsKept text m =
    (j : Index) × (load short_codec text ≡ ok j)
    × IsDistinct j.versions
    × ((v x : Str) → artifact_at v x j.versions ≡ m v x)

shape_artifact-IsKept :
    (c : ℕ) (key oa sum text : Str) (size : ℤ)
    → shape_artifact c key oa sum size ≡ some text
    → IsKept text (sees (c ∷ []) ((oa, record { key = key; sha256 = sum; size = size }) ∷ []))
unfolding load ◌==◌
shape_artifact-IsKept c [] oa sum text size h = absurd (cc)
shape_artifact-IsKept c (d ∷ e ∷ s) oa sum text size h = absurd (cc)
shape_artifact-IsKept c (d ∷ []) oa (x ∷ sum) text size h = absurd (cc)
shape_artifact-IsKept c (d ∷ []) oa [] text (negsuc n) h = absurd (cc)
shape_artifact-IsKept c (d ∷ []) oa [] text (pos n) h =
    subst
      (λ t.
        IsKept t (sees (c ∷ []) ((oa, record { key = d ∷ []; sha256 = []; size = pos n }) ∷ [])))
      (some-injective _ _ h)
      (
        record { name = []; updated = zero_time; versions = one_of c d n oa ∷ [] },
        refl,
        one_IsDistinct (one_of c d n oa),
        artifact_at-sees (one_of c d n oa),
      )

shape_version-IsKept :
    (version text : Str) (m : Dict Artifact)
    → shape_version version m ≡ some text
    → IsKept text (sees version m)
shape_version-IsKept [] text m h = absurd (cc)
shape_version-IsKept (c ∷ e ∷ s) text m h = absurd (cc)
shape_version-IsKept (c ∷ []) text [] h = absurd (cc)
shape_version-IsKept (c ∷ []) text (p ∷ q ∷ m) h = absurd (cc)
shape_version-IsKept (c ∷ []) text ((oa, a) ∷ []) h =
    shape_artifact-IsKept c a.key oa a.sha256 text a.size h

shape-IsKept :
    (vs : List Version) (text : Str)
    → shape vs ≡ some text
    → IsKept text (λ v x. artifact_at v x vs)
unfolding load version_at count
shape-IsKept [] text h =
    subst (λ t. IsKept t (λ v x. none)) (some-injective _ _ h)
      (
        record { name = []; updated = zero_time; versions = [] },
        refl,
        λ k. omega arith,
        λ v x. refl,
      )
shape-IsKept (v ∷ w ∷ vs) text h = absurd (cc)
shape-IsKept (v ∷ []) text h =
    let (j, run, d, same) = shape_version-IsKept v.version text (entries v.artifacts) h in
    (j, run, d, λ k x. same k x ∙ sym (artifact_at-sees v k x))

pub short_codec-KeepsView : KeepsView short_codec
short_codec-KeepsView = record { kept = λ i text h d. shape-IsKept i.versions text h }
