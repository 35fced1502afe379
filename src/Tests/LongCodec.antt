-- ===== src/Tests/LongCodec.antt =====
-- A codec for indexes of one artifact at most, with texts of any length: a text follows its length.
use s3_registry.Prelude.{
  some-injective, ℕ, ◌≡◌, refl, sym, ◌∙◌, Option, none, some, List, [], ◌∷◌, ◌++◌, length, take,
  drop, if◌then◌else◌, arith, subst, ap,
}
use s3_registry.Prelude.Int.{ℤ, pos, negsuc}
use s3_registry.Text.{Str, ◌==◌, count}
use s3_registry.Dict.{Dict, lookup}
use s3_registry.Instant.{zero_time}
use s3_registry.Result.{ok, ok_inj}
use s3_registry.Index.{Artifact, Version, Index, entries}
use s3_registry.Index.View.{version_at, artifact_at, IsDistinct}
use s3_registry.Store.{Codec, load, slice_of}
use s3_registry.Registry.{KeepsView}
use s3_registry.Registry.Sound.{IsMaps, DecodesMaps}

-- A text and what follows it
abbrev pack : Str → Str → Str
pack s rest = length s ∷ (s ++ rest)

abbrev head_text : Str → Str
head_text [] = []
head_text (n ∷ s) = take n s

abbrev rest_text : Str → Str
rest_text [] = []
rest_text (n ∷ s) = drop n s

head_text-pack : (s rest : Str) → head_text (pack s rest) ≡ s
head_text-pack [] rest = refl
head_text-pack (c ∷ s) rest = ap (λ t. c ∷ t) (head_text-pack s rest)

rest_text-pack : (s rest : Str) → rest_text (pack s rest) ≡ rest
rest_text-pack [] rest = refl
rest_text-pack (c ∷ s) rest = rest_text-pack s rest

abbrev one_of : Str → Str → Str → ℕ → Str → Version
one_of version key sum n oa = record {
  version = version;
  created = zero_time;
  artifacts = some ((oa, record { key = key; sha256 = sum; size = pos n }) ∷ []);
}

abbrev size_at : Str → Str → Str → Str → Version
size_at version key sum [] = one_of version key sum 0 []
size_at version key sum (n ∷ oa) = one_of version key sum n oa

abbrev versions_of : Str → Option (List Version)
versions_of [] = none
versions_of (c ∷ s) =
    let t = c ∷ s in
    let u = rest_text t in
    some
      (size_at (head_text t) (head_text u) (head_text (rest_text u)) (rest_text (rest_text u)) ∷ [])

abbrev packed : Str → Str → Str → ℕ → Str → Str
packed version key sum n oa = pack version (pack key (pack sum (n ∷ oa)))

abbrev shape_artifact : Str → Str → Str → Str → ℤ → Option Str
shape_artifact version oa key sum (pos n) = some (packed version key sum n oa)
shape_artifact version oa key sum (negsuc n) = none

abbrev shape_version : Str → Dict Artifact → Option Str
shape_version version [] = none
shape_version version ((oa, a) ∷ []) = shape_artifact version oa a.key a.sha256 a.size
shape_version version (p ∷ q ∷ m) = none

abbrev shape : List Version → Option Str
shape [] = some []
shape (v ∷ w ∷ vs) = none
shape (v ∷ []) = shape_version v.version (entries v.artifacts)

abbrev pub long_codec : Codec
long_codec = record {
  unmarshal = λ s. some (record { name = []; updated = zero_time; versions = versions_of s });
  marshal = λ i. shape i.versions;
}

versions_of-packed :
    (version key sum oa : Str) (n : ℕ)
    → versions_of (packed version key sum n oa) ≡ some (one_of version key sum n oa ∷ [])
versions_of-packed version key sum oa n =
    rw
      (
        head_text-pack version (pack key (pack sum (n ∷ oa))),
        rest_text-pack version (pack key (pack sum (n ∷ oa))),
        head_text-pack key (pack sum (n ∷ oa)),
        rest_text-pack key (pack sum (n ∷ oa)),
        head_text-pack sum (n ∷ oa),
        rest_text-pack sum (n ∷ oa),
      )
      refl

-- What an index of one version names
abbrev sees : Str → Dict Artifact → Str → Str → Option Artifact
sees version m v x = if version == v then lookup x m else none

artifact_at-sees :
    (ver : Version) (v x : Str)
    → artifact_at v x (ver ∷ []) ≡ sees ver.version (entries ver.artifacts) v x
unfolding version_at
artifact_at-sees ver v x = ground arith

one_IsDistinct : (v : Version) → IsDistinct (v ∷ [])
unfolding count
one_IsDistinct v k = ground arith

abbrev IsKept : Str → (Str → Str → Option Artifact) → Type 0
IsKept text m =
    (j : Index) × (load long_codec text ≡ ok j)
    × IsDistinct j.versions
    × ((v x : Str) → artifact_at v x j.versions ≡ m v x)

packed-IsKept :
    (version oa key sum : Str) (n : ℕ)
    → IsKept
        (packed version key sum n oa)
        (sees version ((oa, record { key = key; sha256 = sum; size = pos n }) ∷ []))
unfolding load
packed-IsKept version oa key sum n = (
  record { name = []; updated = zero_time; versions = one_of version key sum n oa ∷ [] },
  ap
      (λ (o : Option (List Version)).
        ok (record { name = []; updated = zero_time; versions = slice_of o }))
      (versions_of-packed version key sum oa n),
  one_IsDistinct (one_of version key sum n oa),
  artifact_at-sees (one_of version key sum n oa),
)

shape_artifact-IsKept :
    (version oa key sum text : Str) (size : ℤ)
    → shape_artifact version oa key sum size ≡ some text
    → IsKept text (sees version ((oa, record { key = key; sha256 = sum; size = size }) ∷ []))
shape_artifact-IsKept version oa key sum text (negsuc n) h = absurd (cc)
shape_artifact-IsKept version oa key sum text (pos n) h =
    subst
      (λ t. IsKept t (sees version ((oa, record { key = key; sha256 = sum; size = pos n }) ∷ [])))
      (some-injective _ _ h) (packed-IsKept version oa key sum n)

shape_version-IsKept :
    (version text : Str) (m : Dict Artifact)
    → shape_version version m ≡ some text
    → IsKept text (sees version m)
shape_version-IsKept version text [] h = absurd (cc)
shape_version-IsKept version text (p ∷ q ∷ m) h = absurd (cc)
shape_version-IsKept version text ((oa, a) ∷ []) h =
    shape_artifact-IsKept version oa a.key a.sha256 text a.size h

shape-IsKept :
    (vs : List Version) (text : Str)
    → shape vs ≡ some text
    → IsKept text (λ v x. artifact_at v x vs)
unfolding load version_at count
shape-IsKept [] text h =
    subst (λ t. IsKept t (λ v x. none)) (some-injective _ _ h)
      (
        record { name = []; updated = zero_time; versions = [] },
        refl,
        λ k. omega arith,
        λ v x. refl,
      )
shape-IsKept (v ∷ w ∷ vs) text h = absurd (cc)
shape-IsKept (v ∷ []) text h =
    let (j, run, d, same) = shape_version-IsKept v.version text (entries v.artifacts) h in
    (j, run, d, λ k x. same k x ∙ sym (artifact_at-sees v k x))

pub long_codec-KeepsView : KeepsView long_codec
long_codec-KeepsView = record { kept = λ i text h d. shape-IsKept i.versions text h }

size_at-IsMaps : (version key sum s : Str) → IsMaps (size_at version key sum s ∷ [])
unfolding lookup
size_at-IsMaps version key sum [] = ((refl, tt), tt)
size_at-IsMaps version key sum (n ∷ oa) = ((refl, tt), tt)

decoded-IsMaps : (text : Str) (i : Index) → load long_codec text ≡ ok i → IsMaps i.versions
unfolding load
decoded-IsMaps [] i h = subst (λ (i : Index). IsMaps i.versions) (ok_inj h) tt
decoded-IsMaps (c ∷ s) i h =
    subst (λ (i : Index). IsMaps i.versions) (ok_inj h) (size_at-IsMaps _ _ _ _)

pub long_codec-DecodesMaps : DecodesMaps long_codec
long_codec-DecodesMaps = record { maps = decoded-IsMaps }
