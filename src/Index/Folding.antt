-- ===== src/Index/Folding.antt =====
-- What merging the entries of one version keeps of them: the last artifact of each os-arch and the
-- earliest known time of publication.
use s3_registry.Prelude.{
  ◌≡◌, refl, ap, sym, ◌∙◌, ◌||◌, Option, none, some, List, [], ◌∷◌, arith, if◌then◌else◌, ltb,
  Bool-cases, inl, inr,
}
use s3_registry.Text.{Str, ◌==◌, eq_iff, contains}
use s3_registry.Dict.{lookup}
use s3_registry.Instant.{Instant, zero_time, is_zero}
use s3_registry.Index.{Artifact, Version, absorb}
use s3_registry.Index.View.{is_some, names, artifact_in, created_in}
use s3_registry.Index.Merging.{or_else, lookup-copy_into, fold_version}

-- The artifact of the last entry of the version that has one.
unfoldable pub latest_artifact : Str → Str → List Version → Option Artifact
latest_artifact k oa [] = none
latest_artifact k oa (v ∷ vs) =
    or_else (latest_artifact k oa vs) (if v.version == k then artifact_in oa (some v) else none)

-- The earlier of two times, where the zero time is no time.
abbrev pub earlier : Instant → Instant → Instant
earlier t u = if is_zero t then u else if is_zero u then t else if ltb u t then u else t

-- The earliest known time of publication among the entries of the version.
unfoldable pub earliest_created : Str → List Version → Instant
earliest_created k [] = zero_time
earliest_created k (v ∷ vs) =
    earlier (if v.version == k then v.created else zero_time) (earliest_created k vs)

artifact_in-absorb :
    (oa : Str) (o : Option Version) (v : Version)
    → artifact_in oa (some (absorb o v)) ≡ or_else (artifact_in oa (some v)) (artifact_in oa o)
unfolding absorb
artifact_in-absorb oa none v = rw lookup-copy_into (unfold lookup in refl)
artifact_in-absorb oa (some m) v = rw lookup-copy_into refl

pub artifact_in-fold_version :
    (k oa : Str) (o : Option Version) (vs : List Version)
    → artifact_in oa (fold_version k o vs) ≡ or_else (latest_artifact k oa vs) (artifact_in oa o)
unfolding fold_version latest_artifact
artifact_in-fold_version k oa o [] = refl
artifact_in-fold_version k oa o (v ∷ vs) =
    artifact_in-fold_version k oa (if v.version == k then some (absorb o v) else o) vs
    ∙ ground (arith, artifact_in-absorb oa o v)

created_in-absorb :
    (o : Option Version) (v : Version)
    → created_in (some (absorb o v)) ≡ earlier (created_in o) v.created
unfolding absorb is_zero
created_in-absorb none v = ground arith
created_in-absorb (some m) v = ground arith

earlier_assoc : (a b c : Instant) → earlier (earlier a b) c ≡ earlier a (earlier b c)
unfolding is_zero
earlier_assoc a b c = ground arith

pub earlier_zero : (a : Instant) → earlier a zero_time ≡ a
unfolding is_zero
earlier_zero a = ground arith

pub zero_earlier : (a : Instant) → a ≡ earlier zero_time a
unfolding is_zero
zero_earlier a = ground arith

pub created_in-fold_version :
    (k : Str) (o : Option Version) (vs : List Version)
    → created_in (fold_version k o vs) ≡ earlier (created_in o) (earliest_created k vs)
unfolding fold_version earliest_created
created_in-fold_version k o [] = sym (earlier_zero (created_in o))
created_in-fold_version k o (v ∷ vs) =
    created_in-fold_version k (if v.version == k then some (absorb o v) else o) vs
    ∙ elim (Bool-cases (v.version == k)) [
      | inl y ↦ rw (y, created_in-absorb o v) (earlier_assoc (created_in o) v.created _)
      | inr n ↦ rw n (ap (earlier (created_in o)) (zero_earlier _))
    ]

pub is_some-fold_version :
    (k : Str) (o : Option Version) (vs : List Version)
    → is_some (fold_version k o vs) ≡ (is_some o || contains k (names vs))
unfolding fold_version contains
is_some-fold_version k o [] = ground arith
is_some-fold_version k o (v ∷ vs) =
    is_some-fold_version k (if v.version == k then some (absorb o v) else o) vs ∙ ground arith

absorb-version :
    (k : Str) (o : Option Version) (v : Version)
    → ((m : Version) → o ≡ some m → m.version ≡ k)
    → (m : Version) → (if v.version == k then some (absorb o v) else o) ≡ some m
    → m.version ≡ k
unfolding absorb
absorb-version k none v h m e = ground (arith, eq_iff v.version k)
absorb-version k (some x) v h m e = ground (arith, h x)

pub version-fold_version :
    (k : Str) (o : Option Version) (vs : List Version)
    → ((m : Version) → o ≡ some m → m.version ≡ k)
    → (m : Version) → fold_version k o vs ≡ some m
    → m.version ≡ k
unfolding fold_version
version-fold_version k o [] h m e = h m e
version-fold_version k o (v ∷ vs) h m e =
    version-fold_version k (if v.version == k then some (absorb o v) else o) vs
      (absorb-version k o v h) m e
