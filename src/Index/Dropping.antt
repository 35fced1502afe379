-- ===== src/Index/Dropping.antt =====
-- Taking the first entry of a version out of the list.
use s3_registry.Prelude.{
  ℕ, zero, suc, ◌≤◌, ◌≡◌, refl, none, some, List, [], ◌∷◌, arith, if◌then◌else◌, Option-cases, inl,
  inr,
}
use s3_registry.Text.{Str, ◌==◌, eq_iff, count}
use s3_registry.Result.{ok}
use s3_registry.Index.{Version, find_version, cut}
use s3_registry.Index.View.{names, version_at, IsDistinct, is_some-version_at}
use s3_registry.Index.Distinct.{IsDistinct-head, IsDistinct-tail}
use s3_registry.Index.Placing.{update_first}

pub drop_first : Str → List Version → List Version
drop_first k [] = []
drop_first k (v ∷ vs) = let rest = drop_first k vs in if v.version == k then vs else v ∷ rest

pub cut_first :
    (k : Str) (vs : List Version) (n : ℕ)
    → find_version k vs ≡ some n
    → cut n vs ≡ ok (drop_first k vs)
unfolding find_version cut drop_first
cut_first k [] n h = cc
cut_first k (v ∷ vs) zero h = ground arith
cut_first k (v ∷ vs) (suc n) h = elim (Option-cases (find_version k vs)) [
  | inl e ↦ ground arith
  | inr (m, e) ↦ ground (arith, cut_first k vs n)
]

pub count-drop_first :
    (k j : Str) (vs : List Version) → count j (names (drop_first k vs)) ≤ count j (names vs)
unfolding drop_first count
count-drop_first k j [] = omega arith
count-drop_first k j (v ∷ vs) = ground (arith, count-drop_first k j vs)

pub version_at-drop_first :
    (k j : Str) (vs : List Version)
    → IsDistinct vs
    → version_at j (drop_first k vs) ≡ (if k == j then none else version_at j vs)
unfolding drop_first version_at
version_at-drop_first k j [] d = ground arith
version_at-drop_first k j (v ∷ vs) d = ground (
  arith,
  version_at-drop_first k j vs (IsDistinct-tail v vs d),
  IsDistinct-head v vs d k,
  is_some-version_at k vs,
  eq_iff v.version k,
  eq_iff v.version j,
  eq_iff k j,
)

pub find_version-update_first :
    (k : Str) (f : Version → Version) (vs : List Version)
    → ((v : Version) → (f v).version ≡ v.version)
    → find_version k (update_first k f vs) ≡ find_version k vs
unfolding update_first find_version
find_version-update_first k f [] h = refl
find_version-update_first k f (v ∷ vs) h = ground (arith, h v, find_version-update_first k f vs h)
