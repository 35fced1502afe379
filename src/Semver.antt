-- ===== src/Semver.antt =====
-- internal/semver/semver.go, over the parts of Masterminds/semver and package sort that it calls.
pub mod Order
pub mod Sorting
pub mod Highest
pub mod Walk
use mathlib.Core.List.{reverse, Permᴰ}
use s3_registry.Prelude.{
  ◌≡◌, Bool, true, false, not, ◌||◌, Option, none, some, List, [], ◌∷◌, map, if◌then◌else◌,
}
use s3_registry.Text.{Str, codes, ◌==◌}
use s3_registry.Result.{Result, ok, err, no_versions, no_parseable, invalid_constraint, unsatisfied}

-- Masterminds/semver: `NewVersion`, `Original`, `Collection.Less`, `NewConstraint`, `Check`; and
-- `sort.Sort` at a `Collection`, which may put versions of equal precedence in any order.
pub record Library : Type 1 where
  pub Version : Type 0
  pub Constraint : Type 0
  pub parse : Str → Option Version
  pub original : Version → Str
  pub less : Version → Version → Bool
  pub sort : List Version → List Version
  pub parse_constraint : Str → Option Constraint
  pub check : Constraint → Version → Bool

-- `sort.IsSorted`: no element is less than the one before it.
abbrev pub NoDescent : {V : Type 0} → (V → V → Bool) → List V → Type 0
NoDescent less [] = Unit
NoDescent less (v ∷ []) = Unit
NoDescent less (v ∷ w ∷ vs) = (less w v ≡ false) × NoDescent less (w ∷ vs)

-- What their documentation promises: a version remembers the text that it was parsed from, `Less`
-- is a strict weak order, and `sort.Sort` permutes its input into sorted order.
pub record IsLawful (L : Library) : Type 0 where
  pub original-parse : (s : Str) (v : L.Version) → L.parse s ≡ some v → L.original v ≡ s
  pub less_irrefl : (v : L.Version) → L.less v v ≡ false
  pub less_weak : (u v w : L.Version) → L.less v u ≡ false → L.less w v ≡ false → L.less w u ≡ false
  pub sort-perm : (vs : List L.Version) → Permᴰ vs (L.sort vs)
  pub sort-NoDescent : (vs : List L.Version) → NoDescent L.less (L.sort vs)

abbrev pub last {ℓ} : {A : Type ℓ} → A → List A → A
last x [] = x
last x (y ∷ ys) = last y ys

-- constraint == "" || constraint == "latest"
unfoldable pub wants_latest : Str → Bool
wants_latest constraint = constraint == [] || constraint == codes "latest"

module _ (L : Library) where
  open L use {Version, Constraint, parse, original, sort, parse_constraint, check}

  -- the first loop of SortAscending
  unfoldable pub parse_all : List Str → List Version
  parse_all [] = []
  parse_all (v ∷ vs) = elim (parse v) [ none ↦ parse_all vs | some pv ↦ pv ∷ parse_all vs ]

  -- SortAscending
  unfoldable pub sort_ascending : List Str → List Str
  unfolding parse_all
  sort_ascending versions = map original (sort (parse_all versions))

  -- the loop of Resolve that walks down the sorted versions, which come highest first
  unfoldable pub scan : Str → Constraint → List Str → Result Str
  scan constraint c [] = err (unsatisfied constraint)
  scan constraint c (v ∷ rest) =
      let later = scan constraint c rest in
      elim (parse v) [ none ↦ later | some pv ↦ if check c pv then ok v else later ]

  -- Resolve from `len(sorted) == 0` on
  unfoldable pub resolve_sorted : Str → List Str → Result Str
  unfolding wants_latest scan
  resolve_sorted constraint [] = err no_parseable
  resolve_sorted constraint (s ∷ ss) =
      if wants_latest constraint then ok (last s ss) else elim (parse_constraint constraint) [
        | none ↦ err (invalid_constraint constraint)
        | some c ↦ scan constraint c (reverse (s ∷ ss))
      ]

  -- Resolve
  unfoldable pub resolve : List Str → Str → Result Str
  unfolding resolve_sorted sort_ascending
  resolve [] constraint = err no_versions
  resolve (v ∷ vs) constraint = resolve_sorted constraint (sort_ascending (v ∷ vs))
