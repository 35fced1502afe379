-- ===== src/Index/Placing.antt =====
-- Writing one entry of the list of versions, at the position that findVersion gives.
use s3_registry.Prelude.{
  ℕ, zero, suc, ◌≡◌, refl, none, some, List, [], ◌∷◌, ◌++◌, arith, if◌then◌else◌, Option-cases, inl,
  inr, length,
}
use s3_registry.Text.{Str, ◌==◌, eq_iff}
use s3_registry.Result.{ok}
use s3_registry.Instant.{Instant}
use s3_registry.Index.{Artifact, Version, find_version, modify, locate, put_artifact}
use s3_registry.Index.View.{names, version_at}

-- The first entry of a version replaced.
unfoldable pub update_first : Str → (Version → Version) → List Version → List Version
update_first k f [] = []
update_first k f (v ∷ vs) =
    let rest = update_first k f vs in if v.version == k then f v ∷ vs else v ∷ rest

pub modify_first :
    (k : Str) (f : Version → Version) (vs : List Version) (n : ℕ)
    → find_version k vs ≡ some n
    → modify n f vs ≡ ok (update_first k f vs)
unfolding find_version modify update_first
modify_first k f [] n h = cc
modify_first k f (v ∷ vs) zero h = ground arith
modify_first k f (v ∷ vs) (suc n) h = elim (Option-cases (find_version k vs)) [
  | inl e ↦ ground arith
  | inr (m, e) ↦ ground (arith, modify_first k f vs n)
]

modify_end :
    (f : Version → Version) (vs : List Version) (v : Version)
    → modify (length vs) f (vs ++ v ∷ []) ≡ ok (vs ++ f v ∷ [])
unfolding modify
modify_end f [] v = refl
modify_end f (x ∷ vs) v = rw (modify_end f vs v)

abbrev pub fresh : Str → Instant → Version
fresh k now = record { version = k; created = now; artifacts = some [] }

-- The versions after Upsert's write and before it sorts.
abbrev pub placed : Instant → Str → Str → Artifact → List Version → List Version
placed now k oa a vs = elim (find_version k vs) [
  | some _ ↦ update_first k (put_artifact oa a) vs
  | none ↦ vs ++ put_artifact oa a (fresh k now) ∷ []
]

pub modify-locate :
    (now : Instant) (k oa : Str) (a : Artifact) (vs : List Version)
    → modify (locate now k vs).1 (put_artifact oa a) (locate now k vs).0 ≡ ok (placed now k oa a vs)
unfolding locate
modify-locate now k oa a vs = elim (Option-cases (find_version k vs)) [
  | inl e ↦ ground (arith, e, modify_end (put_artifact oa a) vs (fresh k now))
  | inr (n, e) ↦ ground (arith, e, modify_first k (put_artifact oa a) vs n)
]

pub names-update_first :
    (k : Str) (f : Version → Version) (vs : List Version)
    → ((v : Version) → (f v).version ≡ v.version)
    → names (update_first k f vs) ≡ names vs
unfolding update_first
names-update_first k f [] h = refl
names-update_first k f (v ∷ vs) h = ground (arith, h v, names-update_first k f vs h)

pub version_at-update_first :
    (k j : Str) (f : Version → Version) (vs : List Version)
    → ((v : Version) → (f v).version ≡ v.version)
    → version_at j (update_first k f vs) ≡ (
        if k == j
        then elim (version_at k vs) [ none ↦ none | some v ↦ some (f v) ]
        else version_at j vs)
unfolding update_first version_at
version_at-update_first k j f [] h = ground arith
version_at-update_first k j f (v ∷ vs) h = ground (
  arith,
  h v,
  version_at-update_first k j f vs h,
  eq_iff v.version k,
  eq_iff v.version j,
  eq_iff k j,
)
