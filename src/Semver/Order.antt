-- ===== src/Semver/Order.antt =====
-- The order of version texts by precedence, and what it means that a text satisfies a constraint.
use s3_registry.Prelude.{
  ◌≡◌, Bool, true, false, not, ◌||◌, Option, none, some, List, [], ◌∷◌, arith, All,
}
use s3_registry.Text.{Str}
use s3_registry.Semver.{Library, IsLawful, wants_latest}

abbrev is_some {ℓ} : {A : Type ℓ} → Option A → Bool
is_some none = false
is_some (some _) = true

not-true : (b : Bool) → not b ≡ true → b ≡ false
not-true b h = ground arith

module _ (L : Library) where
  open L use {Version, parse, less, parse_constraint, check}

  -- The text is a version.
  abbrev pub parseable : Str → Bool
  parseable v = is_some (parse v)

  abbrev le_parsed : Option Version → Option Version → Bool
  le_parsed none _ = false
  le_parsed (some a) none = false
  le_parsed (some a) (some b) = not (less b a)

  -- Both texts are versions, and `w` does not come before `v`.
  abbrev pub le_version : Str → Str → Bool
  le_version v w = le_parsed (parse v) (parse w)

  abbrev pub Le : Str → Str → Type 0
  Le v w = le_version v w ≡ true

  -- Each text is below all later ones.
  abbrev pub IsAscending : List Str → Type 0
  IsAscending [] = Unit
  IsAscending (v ∷ vs) = All (λ w. Le v w) vs × IsAscending vs

  abbrev pub IsDescending : List Str → Type 0
  IsDescending [] = Unit
  IsDescending (v ∷ vs) = All (λ w. Le w v) vs × IsDescending vs

  -- Empty and "latest" admit every version; another text must parse as a constraint and admit it.
  abbrev pub satisfies : Str → Str → Bool
  satisfies constraint v = elim (parse v) [
    | none ↦ false
    | some pv ↦
        wants_latest constraint
        || elim (parse_constraint constraint) [ none ↦ false | some c ↦ check c pv ]
  ]

  module _ (law : IsLawful L) where
    le_parsed_refl : (o : Option Version) → is_some o ≡ true → le_parsed o o ≡ true
    le_parsed_refl none h = cc
    le_parsed_refl (some a) h = rw (law.less_irrefl a)

    pub Le-refl : (v : Str) → parseable v ≡ true → Le v v
    Le-refl v h = le_parsed_refl (parse v) h

    le_parsed_trans :
        (o p q : Option Version)
        → le_parsed o p ≡ true
        → le_parsed p q ≡ true
        → le_parsed o q ≡ true
    le_parsed_trans (some a) (some b) (some c) h k =
        rw (law.less_weak a b c (not-true _ h) (not-true _ k))
    le_parsed_trans (some a) (some b) none h k = cc
    le_parsed_trans (some a) none q h k = cc
    le_parsed_trans none p q h k = cc

    pub Le-trans : (u v w : Str) → Le u v → Le v w → Le u w
    Le-trans u v w = le_parsed_trans (parse u) (parse v) (parse w)
