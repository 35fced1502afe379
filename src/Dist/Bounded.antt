-- ===== src/Dist/Bounded.antt =====
-- boundedIndex of internal/store/dist.go: occurrences of a token between delimiters or ends of a text.
use mathlib.Core.Bool.{true≢false}
use native.Mathlib.Nat.{zero-add, suc-add}
use native.Mathlib.Decide.{dec_lt}
use s3_registry.Prelude.{
  ◌-◌, ℕ, zero, suc, ◌+◌, ◌≤◌, ◌<◌, ◌≡◌, ◌≢◌, refl, sym, ap, subst, ◌∙◌, Bool, true, false, ◌&&◌,
  Option, none, some, [], ◌∷◌, arith, length, take, drop, eqb, ◌||◌, if◌then◌else◌, Option-cases,
  Bool-cases, inl, inr,
}
use s3_registry.Text.{Str, has_prefix}
use s3_registry.Dist.{index_from, is_delim, left_ok, right_ok, both_ok, bounded_from, bounded_index}

-- A byte that may stand beside a token
abbrev pub is_mark : ℕ → Bool
is_mark c = if eqb c b'.' then true else eqb c b'-' || eqb c b'_'

-- A text is empty or ends with such a byte; it is empty or starts with one.
abbrev pub ends_free : Str → Bool
ends_free [] = true
ends_free (c ∷ []) = is_mark c
ends_free (c ∷ d ∷ s) = ends_free (d ∷ s)

abbrev pub starts_free : Str → Bool
starts_free [] = true
starts_free (c ∷ s) = is_mark c

-- The token stands at the position, and what is before it ends so and what is after it starts so.
abbrev pub occurs : Str → Str → ℕ → Bool
occurs s tok i =
    has_prefix (drop i s) tok && (ends_free (take i s) && starts_free (drop (i + length tok) s))

left_ok_cons : (c : ℕ) (s : Str) (i : ℕ) → left_ok (c ∷ s) (suc (suc i)) ≡ left_ok s (suc i)
unfolding left_ok
left_ok_cons c s i = refl

-- The bytes that the code reads exist, and are marks where the text around the token says so.
left_ok_lem : (s : Str) (i : ℕ) → i ≤ length s → left_ok s i ≡ some (ends_free (take i s))
unfolding left_ok is_delim
left_ok_lem s zero h = refl
left_ok_lem [] (suc i) h = absurd (omega arith)
left_ok_lem (c ∷ s) (suc zero) h = ground arith
left_ok_lem (c ∷ []) (suc (suc i)) h = absurd (omega arith)
left_ok_lem (c ∷ d ∷ s) (suc (suc i)) h = left_ok_lem (d ∷ s) (suc i) (omega arith)

right_ok_lem : (s : Str) (e : ℕ) → e ≤ length s → right_ok s e ≡ some (starts_free (drop e s))
unfolding right_ok is_delim
right_ok_lem [] zero h = refl
right_ok_lem [] (suc e) h = absurd (omega arith)
right_ok_lem (c ∷ s) zero h = ground arith
right_ok_lem (c ∷ s) (suc e) h = ground (arith, right_ok_lem s e (omega arith))

prefix_fits : (s tok : Str) → has_prefix s tok ≡ true → length tok ≤ length s
unfolding has_prefix
prefix_fits s [] h = omega arith
prefix_fits [] (b ∷ t) h = absurd (cc)
prefix_fits (a ∷ s) (b ∷ t) h = let l = prefix_fits s t (ground arith) in omega arith

-- A token stands within the text.
pub token_fits :
    (s tok : Str) (i : ℕ)
    → has_prefix (drop i s) tok ≡ true
    → i ≤ length s
    → i + length tok ≤ length s
token_fits s tok zero h l = let m = prefix_fits s tok h in omega arith
token_fits [] tok (suc i) h l = absurd (omega arith)
token_fits (c ∷ s) tok (suc i) h l = let m = token_fits s tok i h (omega arith) in omega arith

both_ok_lem :
    (s tok : Str) (i : ℕ)
    → i ≤ length s
    → i + length tok ≤ length s
    → both_ok (left_ok s i) (right_ok s (i + length tok))
      ≡ some (ends_free (take i s) && starts_free (drop (i + length tok) s))
both_ok_lem s tok i h k = rw (left_ok_lem s i h, right_ok_lem s (i + length tok) k) refl

-- What boundedIndex promises of its answer.
abbrev pub IsEarliest : Str → Str → Option ℕ → Type 0
IsEarliest s tok none = (j : ℕ) → occurs s tok j ≡ false
IsEarliest s tok (some i) = (occurs s tok i ≡ true) × ((j : ℕ) → occurs s tok j ≡ true → i ≤ j)

drop-nil : (j : ℕ) → drop {A = ℕ} j [] ≡ []
drop-nil zero = refl
drop-nil (suc j) = refl

drop-drop : (n k : ℕ) (s : Str) → drop k (drop n s) ≡ drop (n + k) s
drop-drop zero k s = rw zero-add refl
drop-drop (suc n) k [] = drop-nil k ∙ sym (drop-nil (suc n + k))
drop-drop (suc n) k (c ∷ s) = rw suc-add (drop-drop n k s)

no_prefix : (tok : Str) → tok ≢ [] → (j : ℕ) → has_prefix (drop j []) tok ≡ false
unfolding has_prefix
no_prefix [] h j = absurd (h refl)
no_prefix (c ∷ tok) h j = rw drop-nil refl

-- What fails at the head and in the tail fails everywhere.
miss_cons :
    (c : ℕ) (t tok : Str) (k : ℕ)
    → has_prefix (c ∷ t) tok ≡ false
    → ((j : ℕ) → j < k → has_prefix (drop j t) tok ≡ false)
    → (j : ℕ) → j < suc k
    → has_prefix (drop j (c ∷ t)) tok ≡ false
miss_cons c t tok k n h zero lt = n
miss_cons c t tok k n h (suc j) lt = h j (omega arith)

index_hit :
    (t tok : Str) (n i : ℕ)
    → index_from t tok n ≡ some i
    → (k : ℕ) × (i ≡ n + k)
      × (has_prefix (drop k t) tok ≡ true)
      × ((j : ℕ) → j < k → has_prefix (drop j t) tok ≡ false)
unfolding index_from
index_hit [] tok n i h = (0, ground arith, ground arith, λ j lt. absurd (omega arith))
index_hit (c ∷ t) tok n i h = elim (Bool-cases (has_prefix (c ∷ t) tok)) [
  | inl y ↦ (0, ground arith, y, λ j lt. absurd (omega arith))
  | inr no_head ↦
      let (k, e, hit, before) = index_hit t tok (suc n) i (ground arith) in
      (suc k, omega arith, hit, miss_cons c t tok k no_head before)
]

index_miss :
    (t tok : Str) (n : ℕ)
    → tok ≢ []
    → index_from t tok n ≡ none
    → (j : ℕ) → has_prefix (drop j t) tok ≡ false
unfolding index_from
index_miss [] tok n ne h j = no_prefix tok ne j
index_miss (c ∷ t) tok n ne h zero = ground arith
index_miss (c ∷ t) tok n ne h (suc j) = index_miss t tok (suc n) ne (ground arith) j

-- A token that is not empty is found inside the text.
pub has_prefix-lt :
    (s tok : Str) (i : ℕ) → tok ≢ [] → has_prefix (drop i s) tok ≡ true → i < length s
has_prefix-lt [] tok i ne h = absurd (true≢false (sym h ∙ no_prefix tok ne i))
has_prefix-lt (c ∷ s) tok zero ne h = omega arith
has_prefix-lt (c ∷ s) tok (suc i) ne h = omega (arith, has_prefix-lt s tok i ne h)

the_sum : (j from : ℕ) → ¬ (j < from) → from + (j - from) ≡ j
the_sum j from p = omega arith

same_place : (j i : ℕ) → ¬ (j < i) → j < i + 1 → i ≡ j
same_place j i p lt = omega arith

module _ (s tok : Str) (ne : tok ≢ []) where
  -- No bounded occurrence before the position.
  abbrev Clear : ℕ → Type 0
  Clear n = (j : ℕ) → j < n → occurs s tok j ≡ false

  no_occurrence : (j : ℕ) → has_prefix (drop j s) tok ≡ false → occurs s tok j ≡ false
  no_occurrence j h = rw h refl

  no_occurrence_between :
      (from k : ℕ)
      → Clear from
      → ((j : ℕ) → j < k → has_prefix (drop j (drop from s)) tok ≡ false)
      → Clear (from + k)
  no_occurrence_between from k c h j lt = elim (dec_lt j from) [
    | yes p ↦ c j p
    | no p ↦ no_occurrence j (
        subst (λ m. has_prefix (drop m s) tok ≡ false) (the_sum j from p)
          (sym (ap (λ t. has_prefix t tok) (drop-drop from (j - from) s))
            ∙ h (j - from) (omega arith)))
  ]

  no_occurrence_next : (i : ℕ) → Clear i → occurs s tok i ≡ false → Clear (i + 1)
  no_occurrence_next i c h j lt = elim (dec_lt j i) [
    | yes p ↦ c j p
    | no p ↦ subst (λ m. occurs s tok m ≡ false) (same_place j i p lt) h
  ]

  earliest : (i : ℕ) → Clear i → occurs s tok i ≡ true → IsEarliest s tok (some i)
  earliest i c h = (
    h,
    λ j o. elim (dec_lt j i) [ yes p ↦ absurd (true≢false (sym o ∙ c j p)) | no p ↦ omega arith ],
  )

  -- Nothing is found from a position on, and nothing stood before it.
  no_occurrence_all :
      (from : ℕ)
      → Clear from
      → index_from (drop from s) tok from ≡ none
      → (j : ℕ) → occurs s tok j ≡ false
  no_occurrence_all from c e j = elim (dec_lt j from) [
    | yes p ↦ c j p
    | no p ↦ no_occurrence j (
        subst (λ m. has_prefix (drop m s) tok ≡ false) (the_sum j from p)
          (sym (ap (λ t. has_prefix t tok) (drop-drop from (j - from) s))
            ∙ index_miss (drop from s) tok from ne e (j - from)))
  ]

  -- What strings.Index finds from a position on.
  found_at :
      (from i : ℕ)
      → Clear from
      → index_from (drop from s) tok from ≡ some i
      → (from ≤ i) × (has_prefix (drop i s) tok ≡ true) × Clear i
  found_at from i c e =
      let (k, at, hit, before) = index_hit (drop from s) tok from i e in
      (
        omega arith,
        subst (λ m. has_prefix (drop m s) tok ≡ true) (sym at)
            (sym (ap (λ t. has_prefix t tok) (drop-drop from k s)) ∙ hit),
        subst Clear (sym at) (no_occurrence_between from k c before),
      )

  bounded_from_lem :
      (fuel from : ℕ)
      → from ≤ length s
      → length s < from + fuel
      → Clear from
      → (r : Option ℕ) × (bounded_from fuel s tok from ≡ some r) × IsEarliest s tok r
  unfolding bounded_from
  bounded_from_lem zero from low enough c = absurd (omega arith)
  bounded_from_lem (suc fuel) from low enough c =
      elim (Option-cases (index_from (drop from s) tok from)) [
        | inl e ↦ (none, rw (e, bounded_from) refl, no_occurrence_all from c e)
        | inr (i, e) ↦
            let (up, hit, clear) = found_at from i c e in
            let inside = has_prefix-lt s tok i ne hit in
            let tests = both_ok_lem s tok i (omega arith) (token_fits s tok i hit (omega arith)) in
            elim (Bool-cases (ends_free (take i s) && starts_free (drop (i + length tok) s))) [
              | inl y ↦
                  (some i, rw (e, bounded_from, tests, y) refl, earliest i clear (rw (hit, y) refl))
              | inr n ↦
                  let (r, run, spec) =
                    bounded_from_lem fuel (i + 1) (omega arith) (omega arith)
                      (no_occurrence_next i clear (rw (hit, n) refl)) in
                  (r, rw (e, bounded_from, tests, n) run, spec)
            ]
      ]

  -- The loop ends, and panics nowhere.
  pub bounded_index-returns :
      (r : Option ℕ) × (bounded_from (length s + 2) s tok 0 ≡ some r) × IsEarliest s tok r
  bounded_index-returns =
      bounded_from_lem (length s + 2) 0 (omega arith) (omega arith) (λ j lt. absurd (omega arith))

  pub bounded_index-IsEarliest : IsEarliest s tok (bounded_index s tok)
  unfolding bounded_index
  bounded_index-IsEarliest =
      let (r, run, spec) = bounded_index-returns in
      subst (IsEarliest s tok) (sym (answer r run)) spec
    where
      answer :
          (r : Option ℕ) → bounded_from (length s + 2) s tok 0 ≡ some r → bounded_index s tok ≡ r
      answer r run = rw (run, bounded_index) refl
