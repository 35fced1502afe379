-- ===== src/Tests/Numbers.antt =====
-- A small version library: a version is a decimal numeral, a constraint `k` admits what is at least
-- `k`, and sorting is by insertion. It meets what is assumed of Masterminds/semver.
use mathlib.Core.List.{Permᴰ}
use mathlib.Core.List.Permᴰ
use s3_registry.Prelude.{
  ℕ, ◌+◌, ◌*◌, ◌-◌, ◌≡◌, refl, Bool, ◌&&◌, Option, none, some, List, [], ◌∷◌, arith, leb, ltb,
  if◌then◌else◌, Bool-cases, inl, inr,
}
use s3_registry.Text.{Str}
use s3_registry.Semver.{Library, IsLawful, NoDescent}

pub record Numeral : Type 0 where
  pub value : ℕ
  pub text : Str

abbrev digits : ℕ → Str → Option ℕ
digits n [] = some n
digits n (c ∷ s) =
    let rest = digits (n * 10 + (c - 48)) s in if leb 48 c && leb c 57 then rest else none

abbrev decimal : Str → Option ℕ
decimal [] = none
decimal (c ∷ s) = digits 0 (c ∷ s)

abbrev numeral_of : Str → Option ℕ → Option Numeral
numeral_of s none = none
numeral_of s (some n) = some (record { value = n; text = s })

abbrev below : Numeral → Numeral → Bool
below v w = ltb v.value w.value

abbrev insert : Numeral → List Numeral → List Numeral
insert v [] = v ∷ []
insert v (w ∷ ws) = let rest = insert v ws in if below w v then w ∷ rest else v ∷ w ∷ ws

abbrev sort : List Numeral → List Numeral
sort [] = []
sort (v ∷ vs) = insert v (sort vs)

abbrev pub numbers : Library
numbers = record {
  Version = Numeral;
  Constraint = ℕ;
  parse = λ s. numeral_of s (decimal s);
  original = λ v. v.text;
  less = below;
  sort = sort;
  parse_constraint = decimal;
  check = λ c v. leb c v.value;
}

numeral_text : (s : Str) (o : Option ℕ) (v : Numeral) → numeral_of s o ≡ some v → v.text ≡ s
numeral_text s o v h = ground arith

insert-perm : (v : Numeral) (vs : List Numeral) → Permᴰ (v ∷ vs) (insert v vs)
insert-perm v [] = Permᴰ.refl (v ∷ [])
insert-perm v (w ∷ ws) = elim (Bool-cases (below w v)) [
  | inl y ↦ rw y (Permᴰ.trans (Permᴰ.swap refl refl) (Permᴰ.cons refl (insert-perm v ws)))
  | inr n ↦ rw n (Permᴰ.refl (v ∷ w ∷ ws))
]

sort-perm : (vs : List Numeral) → Permᴰ vs (sort vs)
sort-perm [] = Permᴰ.nil
sort-perm (v ∷ vs) = Permᴰ.trans (Permᴰ.cons refl (sort-perm vs)) (insert-perm v (sort vs))

insert-NoDescent :
    (v : Numeral) (vs : List Numeral) → NoDescent below vs → NoDescent below (insert v vs)
insert-NoDescent v [] h = tt
insert-NoDescent v (w ∷ []) h = ground arith
insert-NoDescent v (w ∷ x ∷ ws) h = ground (arith, insert-NoDescent v (x ∷ ws) h.1)

sort-NoDescent : (vs : List Numeral) → NoDescent below (sort vs)
sort-NoDescent [] = tt
sort-NoDescent (v ∷ vs) = insert-NoDescent v (sort vs) (sort-NoDescent vs)

pub numbers-IsLawful : IsLawful numbers
numbers-IsLawful = record {
  original-parse = λ s v h. numeral_text s (decimal s) v h;
  less_irrefl = λ v. ground arith;
  less_weak = λ u v w h k. ground arith;
  sort-perm = sort-perm;
  sort-NoDescent = sort-NoDescent;
}
