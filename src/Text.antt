-- ===== src/Text.antt =====
-- Go's strings: sequences of bytes, and what the program uses of package strings on them.
pub mod Unicode
pub mod Sorting
use Prim.Native.Char.{code}
use s3_registry.Prelude.{
  ℕ, String, ◌≡◌, refl, ◌↔◌, Bool, true, false, ◌&&◌, List, [], ◌∷◌, ◌++◌, arith, eqb,
  if◌then◌else◌, ◌||◌, ◌+◌, ◌⊎◌, inl, inr, ltb, All, subst, Option, none, some,
}

abbrev pub Str : Type 0
Str = List ℕ

-- The bytes of a literal, which is ASCII.
abbrev pub codes : String → Str
codes String.[] = []
codes (String.◌∷◌ c s) = code c ∷ codes s

infix 50 ◌==◌
unfoldable pub ◌==◌ : Str → Str → Bool
[] == [] = true
[] == (_ ∷ _) = false
(_ ∷ _) == [] = false
(a ∷ s) == (b ∷ t) = eqb a b && s == t

pub eq_iff : (s t : Str) → (s == t ≡ true) ↔ (s ≡ t)
unfolding ◌==◌
eq_iff [] [] = (λ _. refl, λ _. refl)
eq_iff [] (b ∷ t) = ground arith
eq_iff (a ∷ s) [] = ground arith
eq_iff (a ∷ s) (b ∷ t) = ground (arith, eq_iff s t)

pub eq_refl : (s : Str) → s == s ≡ true
eq_refl s = (eq_iff s s).1 refl

-- strings.HasPrefix
unfoldable pub has_prefix : Str → Str → Bool
has_prefix s [] = true
has_prefix [] (_ ∷ _) = false
has_prefix (a ∷ s) (b ∷ p) = eqb a b && has_prefix s p

-- strings.TrimPrefix
unfoldable pub strip_prefix : Str → Str → Option Str
strip_prefix s [] = some s
strip_prefix [] (_ ∷ _) = none
strip_prefix (a ∷ s) (b ∷ p) = if eqb a b then strip_prefix s p else none

pub strip_prefix-append : (p s : Str) → strip_prefix (p ++ s) p ≡ some s
unfolding strip_prefix
strip_prefix-append [] s = refl
strip_prefix-append (a ∷ p) s = ground (arith, strip_prefix-append p s)

pub strip_prefix-eq : (s p r : Str) → strip_prefix s p ≡ some r → s ≡ p ++ r
unfolding strip_prefix
strip_prefix-eq s [] r h = ground arith
strip_prefix-eq [] (b ∷ p) r h = absurd (cc)
strip_prefix-eq (a ∷ s) (b ∷ p) r h = ground (arith, strip_prefix-eq s p r)

pub has_prefix-append : (p s : Str) → has_prefix (p ++ s) p ≡ true
unfolding has_prefix
has_prefix-append [] s = refl
has_prefix-append (a ∷ p) s = ground (arith, has_prefix-append p s)

-- strings.Contains
unfoldable pub has_substring : Str → Str → Bool
unfolding has_prefix
has_substring [] p = has_prefix [] p
has_substring (a ∷ s) p = has_prefix (a ∷ s) p || has_substring s p

-- strings.HasSuffix
unfoldable pub has_suffix : Str → Str → Bool
has_suffix [] p = [] == p
has_suffix (a ∷ s) p = (a ∷ s) == p || has_suffix s p

-- How often `s` occurs, and whether it does.
unfoldable pub count : Str → List Str → ℕ
count s [] = 0
count s (x ∷ xs) = (if x == s then 1 else 0) + count s xs

unfoldable pub contains : Str → List Str → Bool
contains s [] = false
contains s (x ∷ xs) = x == s || contains s xs

pub count-append : (s : Str) (xs ys : List Str) → count s (xs ++ ys) ≡ count s xs + count s ys
unfolding count
count-append s [] ys = omega arith
count-append s (x ∷ xs) ys = omega (arith, count-append s xs ys)

pub contains-append :
    (s : Str) (xs ys : List Str) → contains s (xs ++ ys) ≡ (contains s xs || contains s ys)
unfolding contains
contains-append s [] ys = refl
contains-append s (x ∷ xs) ys = ground (arith, contains-append s xs ys)

pub contains-eq-count : (s : Str) (xs : List Str) → contains s xs ≡ ltb 0 (count s xs)
unfolding contains count
contains-eq-count s [] = refl
contains-eq-count s (x ∷ xs) = ground (arith, contains-eq-count s xs)

pub contains-split :
    (s x : Str) (xs : List Str) → contains s (x ∷ xs) ≡ true → (x ≡ s) ⊎ (contains s xs ≡ true)
unfolding contains
contains-split s x xs h = ground (arith, eq_iff x s)

pub contains-head : (x : Str) (xs : List Str) → contains x (x ∷ xs) ≡ true
unfolding contains
contains-head x xs = rw eq_refl

pub contains-tail : (s x : Str) (xs : List Str) → contains s xs ≡ true → contains s (x ∷ xs) ≡ true
unfolding contains
contains-tail s x xs h = ground arith

-- What holds of every element holds of each that occurs.
pub All-contains {κ} :
    (P : Str → Type κ) (s : Str) (xs : List Str) → All P xs → contains s xs ≡ true → P s
All-contains P s [] _ h = absurd (unfold contains in (cc))
All-contains P s (x ∷ xs) (p, ps) h = elim (contains-split s x xs h) [
  | inl e ↦ subst P e p
  | inr t ↦ All-contains P s xs ps t
]

pub contains-All {κ} :
    (P : Str → Type κ) (xs : List Str) → ((s : Str) → contains s xs ≡ true → P s) → All P xs
contains-All P [] f = tt
contains-All P (x ∷ xs) f =
    (f x (contains-head x xs), contains-All P xs (λ s h. f s (contains-tail s x xs h)))
