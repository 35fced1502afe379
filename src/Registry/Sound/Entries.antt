-- ===== src/Registry/Sound/Entries.antt =====
-- The entries of an index of internal/index as a reader of it finds them: in an index without duplicates,
-- of Go maps, every entry is the one that is found for its version and os-arch.
use s3_registry.Prelude.{
  ◌≡◌, refl, Option, sym, ◌∙◌, true, some, none, List, [], ◌∷◌, All, subst, Bool-cases, inl, inr,
  Option-cases, ap,
}
use s3_registry.Text.{Str, ◌==◌, eq_iff, eq_refl, contains}
use s3_registry.Dict.{Dict, lookup, NodupKeys}
use s3_registry.Index.{Artifact, Version, Index, entries, new}
use s3_registry.Index.View.{names, version_at, artifact_at, IsDistinct, is_some, is_some-version_at}
use s3_registry.Index.Distinct.{IsDistinct-tail, IsDistinct-head}
use s3_registry.Result.{ok, ok_inj}
use s3_registry.Store.{Codec}
use s3_registry.Store.Laws.{Stored, index_in}
use s3_registry.Registry.Sound.{IsMaps, DecodesMaps}

module _ (Q : Str → Str → Artifact → Type 0) where
  abbrev pub EachOf : Str → Dict Artifact → Type 0
  EachOf version = All (λ (p : Str × Artifact). Q version p.0 p.1)

  -- Every entry of every version
  abbrev pub Each : List Version → Type 0
  Each = All (λ (v : Version). EachOf v.version (entries v.artifacts))

  found-head : (x : Str) (a : Artifact) (m : Dict Artifact) → lookup x ((x, a) ∷ m) ≡ some a
  unfolding lookup
  found-head x a m = rw eq_refl

  found-tail :
      (x y : Str) (a c : Artifact) (m : Dict Artifact)
      → lookup x m ≡ none
      → lookup y m ≡ some c
      → lookup y ((x, a) ∷ m) ≡ some c
  unfolding lookup
  found-tail x y a c m h k = elim (Bool-cases (x == y)) [
    | inl e ↦ absurd (cc (h, k, (eq_iff x y).0 e))
    | inr n ↦ rw n k
  ]

  -- A property of what is found for a key holds of each entry of a map.
  EachOf-lookup :
      (version : Str) (m : Dict Artifact)
      → NodupKeys m
      → ((x : Str) (a : Artifact) → lookup x m ≡ some a → Q version x a)
      → EachOf version m
  EachOf-lookup version [] d f = tt
  EachOf-lookup version ((x, a) ∷ m) (apart, d) f = (
    f x a (found-head x a m),
    EachOf-lookup version m d (λ y c k. f y c (found-tail x y a c m apart k)),
  )

  artifact_at-head :
      (v : Version) (vs : List Version) (x : Str)
      → artifact_at v.version x (v ∷ vs) ≡ lookup x (entries v.artifacts)
  unfolding version_at
  artifact_at-head v vs x = rw eq_refl refl

  artifact_at-names :
      (k x : Str) (vs : List Version) (a : Artifact)
      → artifact_at k x vs ≡ some a
      → contains k (names vs) ≡ true
  artifact_at-names k x vs a h =
      sym (is_some-version_at k vs) ∙ elim (Option-cases (version_at k vs)) [
        | inl e ↦ absurd (cc (rw e at h))
        | inr (v, e) ↦ ap is_some e
      ]

  artifact_at-tail :
      (v : Version) (vs : List Version) (k x : Str) (a : Artifact)
      → IsDistinct (v ∷ vs)
      → artifact_at k x vs ≡ some a
      → artifact_at k x (v ∷ vs) ≡ some a
  unfolding version_at
  artifact_at-tail v vs k x a d h = elim (Bool-cases (v.version == k)) [
    | inl e ↦ absurd (cc (IsDistinct-head v vs d k e, artifact_at-names k x vs a h))
    | inr n ↦ rw n h
  ]

  -- A property of what a reader finds holds of every entry.
  pub Each-artifact_at :
      (vs : List Version)
      → IsDistinct vs
      → IsMaps vs
      → ((v x : Str) (a : Artifact) → artifact_at v x vs ≡ some a → Q v x a)
      → Each vs
  Each-artifact_at [] d m f = tt
  Each-artifact_at (v ∷ vs) d (m, ms) f = (
    EachOf-lookup v.version (entries v.artifacts) m
        (λ x a h. f v.version x a (artifact_at-head v vs x ∙ h)),
    Each-artifact_at vs (IsDistinct-tail v vs d) ms
        (λ k x a h. f k x a (artifact_at-tail v vs k x a d h)),
  )

-- An index that is read from a bucket is of Go maps.
pub index_in-IsMaps :
    (C : Codec) (tool : Str) (o : Option Stored) (idx : Index)
    → DecodesMaps C
    → index_in C tool o ≡ ok idx
    → IsMaps idx.versions
unfolding new
index_in-IsMaps C tool none idx d h = subst (λ (i : Index). IsMaps i.versions) (ok_inj h) tt
index_in-IsMaps C tool (some o) idx d h = d.maps o.body idx h
