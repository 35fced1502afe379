-- ===== src/Dist/Span.antt =====
-- The part of the text that boundedIndex finds, and the bytes that it reads around it.
use native.Mathlib.Nat.{zero-add, suc-add}
use s3_registry.Prelude.{
  ℕ, zero, suc, Option, none, ◌+◌, ◌≤◌, ◌≡◌, ◌≢◌, refl, ap, true, some, [], ◌∷◌, ◌++◌, arith,
  length, take, drop, and_true,
}
use s3_registry.Text.{Str, has_prefix}
use s3_registry.Dist.{bounded_from}
use s3_registry.Dist.Bounded.{IsEarliest, bounded_index-returns, has_prefix-lt}

prefix_split :
    (s tok : Str)
    → has_prefix s tok ≡ true
    → (length tok ≤ length s) × (s ≡ tok ++ drop (length tok) s)
unfolding has_prefix
prefix_split s [] h = (omega arith, refl)
prefix_split [] (b ∷ t) h = absurd (cc)
prefix_split (a ∷ s) (b ∷ t) h =
    let (l, e) = prefix_split s t (ground arith) in (omega arith, ground (arith, ap (λ r. a ∷ r) e))

spans :
    (s tok : Str) (i : ℕ)
    → has_prefix (drop i s) tok ≡ true
    → i ≤ length s
    → (i + length tok ≤ length s) × (s ≡ take i s ++ (tok ++ drop (i + length tok) s))
spans s tok zero h l = let (m, e) = prefix_split s tok h in rw zero-add (m, e)
spans [] tok (suc i) h l = absurd (omega arith)
spans (c ∷ s) tok (suc i) h l =
    let (m, e) = spans s tok i h (omega arith) in rw suc-add (omega arith, ap (λ r. c ∷ r) e)

-- What a result of boundedIndex says of the text
abbrev pub IsSpan : Str → Str → Option ℕ → Type 0
IsSpan s tok none = Unit
IsSpan s tok (some i) =
    (i + length tok ≤ length s) × (s ≡ take i s ++ (tok ++ drop (i + length tok) s))

-- For a token that is not empty, the loop of boundedIndex returns within as many rounds as the text has
-- bytes, and two, and reads no byte out of range. Where it finds the token, the text is
-- what stands before it, the token and what follows.
pub bounded_from-spans :
    (s tok : Str)
    → tok ≢ []
    → (r : Option ℕ) × (bounded_from (length s + 2) s tok 0 ≡ some r) × IsSpan s tok r
bounded_from-spans s tok ne =
    let (r, run, spec) = bounded_index-returns s tok ne in (r, run, spanned r spec)
  where
    spanned : (r : Option ℕ) → IsEarliest s tok r → IsSpan s tok r
    spanned none h = tt
    spanned (some i) (h, _) =
        let p = (and_true _ _ h).0 in
        let inside = has_prefix-lt s tok i ne p in spans s tok i p (omega arith)
