-- ===== src/Dist/Order.antt =====
-- firstToken of internal/store/dist.go under every order in which `range` may take its table.
use native.Mathlib.Nat.{zero-add, suc-add}
use mathlib.Core.List.{Permᴰ}
use s3_registry.Prelude.{
  ℕ, zero, suc, ◌+◌, ◌≡◌, refl, sym, subst, ap, ◌∙◌, Bool, true, false, not, ◌&&◌, ◌||◌, Option,
  none, some, List, [], ◌∷◌, All, arith, length, drop, get_elem?, and_true, ◌⊎◌, Bool-cases, inl,
  inr,
}
use s3_registry.Text.{Str, ◌==◌, eq_iff, eq_refl, has_prefix}
use s3_registry.Text.Unicode.{Unicode, to_lower}
use s3_registry.Dist.{
  is_delim, bounded_index, Best, first_token, os_tokens, arch_tokens, both_found, infer_in,
  infer_os_arch,
}
use s3_registry.Dist.Bounded.{starts_free, occurs, IsEarliest, bounded_index-IsEarliest}
use s3_registry.Dist.Permuted.{Apart, first_from-Permᴰ}

-- The byte at the position is a delimiter, or the text ends before it.
abbrev delim_at : Str → ℕ → Bool
delim_at s n = elim (get_elem? s n) [ none ↦ true | some b ↦ is_delim b ]

-- A token that begins with the other one as a bounded token
abbrev covers : Str → Str → Bool
covers u t = has_prefix u t && delim_at u (length t)

-- Two entries that cannot be found at one place, unless they have one value.
abbrev agree : Str × Str → Str × Str → Bool
agree (t, v) (u, w) = v == w || not (covers u t || covers t u)

abbrev agree_all : Str × Str → List (Str × Str) → Bool
agree_all p [] = true
agree_all p (q ∷ qs) = agree p q && agree_all p qs

abbrev entry_eq : Str × Str → Str × Str → Bool
entry_eq (t, v) (u, w) = t == u && v == w

abbrev is_entry : List (Str × Str) → Str × Str → Bool
is_entry [] p = false
is_entry (q ∷ qs) p = entry_eq q p || is_entry qs p

-- Every entry of the table has a token and agrees with all entries.
abbrev all_agree : List (Str × Str) → List (Str × Str) → Bool
all_agree table [] = true
all_agree table (p ∷ ps) = not (p.0 == []) && (agree_all p table && all_agree table ps)

entry_eq→≡ : (p q : Str × Str) → entry_eq p q ≡ true → p ≡ q
entry_eq→≡ (t, v) (u, w) h = ground (arith, eq_iff t u, eq_iff v w)

agree_all-entry :
    (p q : Str × Str) (qs : List (Str × Str))
    → agree_all p qs ≡ true
    → is_entry qs q ≡ true
    → agree p q ≡ true
agree_all-entry p q [] h k = absurd (cc)
agree_all-entry p q (r ∷ rs) h k = elim (Bool-cases (entry_eq r q)) [
  | inl y ↦ subst (λ x. agree p x ≡ true) (entry_eq→≡ r q y) (and_true _ _ h).0
  | inr n ↦ agree_all-entry p q rs (and_true _ _ h).1 (ground (arith, n))
]

all_agree-entry :
    (table : List (Str × Str)) (p : Str × Str) (ps : List (Str × Str))
    → all_agree table ps ≡ true
    → is_entry ps p ≡ true
    → (p.0 == [] ≡ false) × (agree_all p table ≡ true)
all_agree-entry table p [] h k = absurd (cc)
all_agree-entry table p (r ∷ rs) h k = elim (Bool-cases (entry_eq r p)) [
  | inl y ↦
      subst (λ (x : Str × Str). (x.0 == [] ≡ false) × (agree_all x table ≡ true)) (entry_eq→≡ r p y)
        (ground arith)
  | inr n ↦ all_agree-entry table p rs (ground arith) (ground (arith, n))
]

-- Of two texts that one text begins with, one begins with the other.
prefixes :
    (s t u : Str)
    → has_prefix s t ≡ true
    → has_prefix s u ≡ true
    → (has_prefix u t ≡ true) ⊎ (has_prefix t u ≡ true)
unfolding has_prefix
prefixes s [] u h k = inl refl
prefixes s (a ∷ t) [] h k = inr refl
prefixes [] (a ∷ t) (b ∷ u) h k = absurd (cc)
prefixes (c ∷ s) (a ∷ t) (b ∷ u) h k = ground (arith, prefixes s t u)

-- A delimiter after the token in the text is one after it in a longer token.
delim_inside :
    (s t u : Str)
    → has_prefix s u ≡ true
    → has_prefix u t ≡ true
    → delim_at s (length t) ≡ true
    → delim_at u (length t) ≡ true
unfolding has_prefix
delim_inside s [] [] h k d = refl
delim_inside (c ∷ s) [] (b ∷ u) h k d = ground (arith)
delim_inside [] t (b ∷ u) h k d = absurd (cc)
delim_inside s (a ∷ t) [] h k d = absurd (cc)
delim_inside (c ∷ s) (a ∷ t) (b ∷ u) h k d = delim_inside s t u (ground arith) (ground arith) d

get_elem?-drop : (i n : ℕ) (s : Str) → get_elem? (drop i s) n ≡ get_elem? s (i + n)
get_elem?-drop zero n s = rw zero-add refl
get_elem?-drop (suc i) n [] = refl
get_elem?-drop (suc i) n (c ∷ s) = rw suc-add (get_elem?-drop i n s)

starts_free-delim_at : (s : Str) (e : ℕ) → starts_free (drop e s) ≡ true → delim_at s e ≡ true
unfolding is_delim
starts_free-delim_at [] zero h = refl
starts_free-delim_at [] (suc e) h = refl
starts_free-delim_at (c ∷ s) zero h = ground arith
starts_free-delim_at (c ∷ s) (suc e) h = starts_free-delim_at s e h

delim_at-drop : (i n : ℕ) (s : Str) → delim_at (drop i s) n ≡ delim_at s (i + n)
delim_at-drop i n s =
    ap (λ (o : Option ℕ). elim o as (λ _. Bool) [ none ↦ true | some b ↦ is_delim b ])
      (get_elem?-drop i n s)

-- What is found at a position: the token, and a delimiter or the end after it.
found_there :
    (s t : Str) (i : ℕ)
    → t == [] ≡ false
    → bounded_index s t ≡ some i
    → (has_prefix (drop i s) t ≡ true) × (delim_at (drop i s) (length t) ≡ true)
found_there s t i n e =
    let h : occurs s t i ≡ true =
      (subst (IsEarliest s t) e
        (bounded_index-IsEarliest s t (λ q. absurd (cc ((eq_iff t []).1 q, n))))).0 in
    let (p, d) = and_true _ _ h in
    (p, delim_at-drop i (length t) s ∙ starts_free-delim_at s (i + length t) (and_true _ _ d).1)

agree-Apart :
    (s : Str) (p q : Str × Str)
    → p.0 == [] ≡ false
    → q.0 == [] ≡ false
    → agree p q ≡ true
    → Apart s p q
agree-Apart s (t, v) (u, w) n m a i h k =
    let (ht, dt) = found_there s t i n h in
    let (hu, du) = found_there s u i m k in
    elim (prefixes (drop i s) t u ht hu) [
      | inl c ↦ (eq_iff v w).0 (ground (arith, c, delim_inside (drop i s) t u hu c dt))
      | inr c ↦ (eq_iff v w).0 (ground (arith, c, delim_inside (drop i s) u t ht c du))
    ]

is_entry-cons :
    (table : List (Str × Str)) (q p : Str × Str)
    → is_entry table p ≡ true
    → is_entry (q ∷ table) p ≡ true
is_entry-cons table q p h = ground arith

entries_of :
    (xs table : List (Str × Str))
    → ((p : Str × Str) → is_entry xs p ≡ true → is_entry table p ≡ true)
    → All (λ p. is_entry table p ≡ true) xs
entries_of [] table h = tt
entries_of (x ∷ xs) table h = (
  h x (ground (arith, eq_refl x.0, eq_refl x.1)),
  entries_of xs table (λ p k. h p (is_entry-cons xs x p k)),
)

-- The order of a table whose entries agree does not matter.
first_token-agree :
    (s : Str) (table tokens : List (Str × Str))
    → all_agree table table ≡ true
    → Permᴰ table tokens
    → first_token s tokens ≡ first_token s table
unfolding first_token
first_token-agree s table tokens ok' d =
    ap (λ (b : Best). b.value)
      (sym (
        first_from-Permᴰ s (λ p. is_entry table p ≡ true) apart d
          (entries_of table table (λ p h. h)) _))
  where
    apart : (p q : Str × Str) → is_entry table p ≡ true → is_entry table q ≡ true → Apart s p q
    apart p q h k =
        let (n, a) = all_agree-entry table p table ok' h in
        let (m, _) = all_agree-entry table q table ok' k in
        agree-Apart s p q n m (agree_all-entry p q table a k)

os_agree : all_agree os_tokens os_tokens ≡ true
unfolding ◌==◌ has_prefix is_delim
os_agree = refl

arch_agree : all_agree arch_tokens arch_tokens ≡ true
unfolding ◌==◌ has_prefix is_delim
arch_agree = refl

-- InferOSArch answers the same in whatever order `range` takes the entries of its two tables.
pub infer_in-Permᴰ :
    (u : Unicode) (os arch : List (Str × Str)) (filename : Str)
    → Permᴰ os_tokens os
    → Permᴰ arch_tokens arch
    → infer_in u os arch filename ≡ infer_os_arch u filename
unfolding infer_os_arch infer_in
infer_in-Permᴰ u os arch filename d e =
    ap (λ t. both_found t (first_token (to_lower u filename) arch))
      (first_token-agree (to_lower u filename) os_tokens os os_agree d)
    ∙ ap (both_found (first_token (to_lower u filename) os_tokens))
        (first_token-agree (to_lower u filename) arch_tokens arch arch_agree e)
