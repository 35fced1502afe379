-- ===== src/Dist/Permuted.antt =====
-- The loop of firstToken of internal/store/dist.go on a table in another order.
use mathlib.Core.List.{Permᴰ}
use s3_registry.Prelude.{
  ℕ, ◌≡◌, refl, sym, subst, ap, ◌∙◌, Option, none, some, List, All, arith, if◌then◌else◌, eqb,
  eqb_iff, Option-cases, Bool-cases, inl, inr,
}
use s3_registry.Text.{Str}
use s3_registry.Dist.{bounded_index, Best, improves, consider, first_from}

-- Two entries whose tokens are found at one place have one value.
abbrev pub Apart : Str → Str × Str → Str × Str → Type 0
Apart s p q = (i : ℕ) → bounded_index s p.0 ≡ some i → bounded_index s q.0 ≡ some i → p.1 ≡ q.1

-- A round of the loop with the place where the token was found.
abbrev take_at : Option ℕ → Str → Best → Best
take_at none val best = best
take_at (some i) val best =
    if improves i best.index then record { index = some i; value = val } else best

consider-take_at :
    (s t v : Str) (best : Best) → consider s t v best ≡ take_at (bounded_index s t) v best
unfolding consider
consider-take_at s t v best = elim (Option-cases (bounded_index s t)) [
  | inl e ↦ rw (e, consider) refl
  | inr (i, e) ↦ rw (e, consider) refl
]

take_at_comm :
    (i j : Option ℕ) (v w : Str) (best : Best)
    → ((k : ℕ) → i ≡ some k → j ≡ some k → v ≡ w)
    → take_at i v (take_at j w best) ≡ take_at j w (take_at i v best)
take_at_comm none j v w best h = refl
take_at_comm (some i) none v w best h = refl
take_at_comm (some i) (some j) v w best h = elim (Bool-cases (eqb i j)) [
  | inl y ↦ ground (arith, h i refl (ap some (sym ((eqb_iff i j).0 y))))
  | inr n ↦ ground arith
]

consider_comm :
    (s : Str) (p q : Str × Str) (best : Best)
    → Apart s p q
    → consider s p.0 p.1 (consider s q.0 q.1 best) ≡ consider s q.0 q.1 (consider s p.0 p.1 best)
consider_comm s (t, v) (u, w) best h =
    consider-take_at s t v _
    ∙ ap (take_at (bounded_index s t) v) (consider-take_at s u w best)
    ∙ take_at_comm (bounded_index s t) (bounded_index s u) v w best h
    ∙ ap (take_at (bounded_index s u) w) (sym (consider-take_at s t v best))
    ∙ sym (consider-take_at s u w _)

-- A property of entries of which any two stand apart.
module _ (s : Str) (P : Str × Str → Type 0)
    (apart : (p q : Str × Str) → P p → P q → Apart s p q) where
  All-Permᴰ : {xs ys : List (Str × Str)} → Permᴰ xs ys → All P xs → All P ys
  All-Permᴰ Permᴰ.nil h = h
  All-Permᴰ (Permᴰ.cons e d) (h, hs) = (subst P e h, All-Permᴰ d hs)
  All-Permᴰ (Permᴰ.swap e f) (h, (k, hs)) = (subst P f k, (subst P e h, hs))
  All-Permᴰ (Permᴰ.trans d f) h = All-Permᴰ f (All-Permᴰ d h)

  pub first_from-Permᴰ :
      {xs ys : List (Str × Str)}
      → Permᴰ xs ys
      → All P xs
      → (best : Best) → first_from s xs best ≡ first_from s ys best
  unfolding first_from
  first_from-Permᴰ Permᴰ.nil h best = refl
  first_from-Permᴰ (Permᴰ.cons {a = p} {b = q} {l₁ = xs} e d) (h, hs) best =
      ap (λ (r : Str × Str). first_from s xs (consider s r.0 r.1 best)) e
      ∙ first_from-Permᴰ d hs (consider s q.0 q.1 best)
  first_from-Permᴰ (Permᴰ.swap {a = p} {b = q} {a' = q'} {b' = p'} {l = xs} e f) (h, (k, hs)) best =
      ap (first_from s xs) (consider_comm s q p best (apart q p k h))
      ∙ ap (λ (r : Str × Str). first_from s xs (consider s r.0 r.1 (consider s q.0 q.1 best))) e
      ∙ ap (λ (r : Str × Str). first_from s xs (consider s p'.0 p'.1 (consider s r.0 r.1 best))) f
  first_from-Permᴰ (Permᴰ.trans d f) h best =
      first_from-Permᴰ d h best ∙ first_from-Permᴰ f (All-Permᴰ d h) best
