-- ===== src/Semver/Sorting.antt =====
-- SortAscending of internal/semver: which entries it keeps and in which order.
use mathlib.Core.List.{Permᴰ}
use mathlib.Core.Path.{ap₂}
use s3_registry.Prelude.{
  ◌+◌, ◌≡◌, refl, sym, subst, ap, ◌∙◌, false, some, List, [], ◌∷◌, map, arith, All, Option-cases,
  inl, inr, if◌then◌else◌,
}
use s3_registry.Text.{Str, ◌==◌, eq_iff, count}
use s3_registry.Semver.{Library, IsLawful, NoDescent, parse_all, sort_ascending}
use s3_registry.Semver.Order.{parseable, Le, IsAscending}

-- A permutation occurs as often, also under a function.
count-perm {ℓ} :
    {A : Type ℓ} (f : A → Str) (s : Str) {xs ys : List A}
    → Permᴰ xs ys
    → count s (map f xs) ≡ count s (map f ys)
unfolding count
count-perm f s Permᴰ.nil = refl
count-perm f s (Permᴰ.cons e p) = ap₂ ◌+◌ (ap (λ x. if f x == s then 1 else 0) e) (count-perm f s p)
count-perm f s (Permᴰ.swap {l = l} e g) = rw (e, g) (omega arith)
count-perm f s (Permᴰ.trans p q) = count-perm f s p ∙ count-perm f s q

All-perm {ℓ κ} : {A : Type ℓ} (P : A → Type κ) {xs ys : List A} → Permᴰ xs ys → All P xs → All P ys
All-perm P Permᴰ.nil h = h
All-perm P (Permᴰ.cons e p) h = (subst P e h.0, All-perm P p h.1)
All-perm P (Permᴰ.swap e g) h = (subst P g h.1.0, (subst P e h.0, h.1.1))
All-perm P (Permᴰ.trans p q) h = All-perm P q (All-perm P p h)

module _ (L : Library) (law : IsLawful L) where
  open L use {Version, parse, original, less, sort}

  -- Parsing a list and taking the original texts again keeps the parseable entries.
  count-parse_all :
      (s : Str) (vs : List Str)
      → count s (map original (parse_all L vs)) ≡ (if parseable L s then count s vs else 0)
  unfolding count parse_all
  count-parse_all s [] = ground arith
  count-parse_all s (v ∷ vs) = elim (Option-cases (parse v)) [
    | inl e ↦ rw (e, parse_all) (ground (arith, e, eq_iff v s, count-parse_all s vs))
    | inr (a, e) ↦
        rw (e, parse_all)
          (ground (arith, e, law.original-parse v a e, eq_iff v s, count-parse_all s vs))
  ]

  -- A version that came from parsing is the one its own text parses to.
  abbrev FromText : Version → Type 0
  FromText v = parse (original v) ≡ some v

  parse_all-FromText : (vs : List Str) → All FromText (parse_all L vs)
  unfolding parse_all
  parse_all-FromText [] = tt
  parse_all-FromText (v ∷ vs) = elim (Option-cases (parse v)) [
    | inl e ↦ rw (e, parse_all) (parse_all-FromText vs)
    | inr (a, e) ↦ rw (e, parse_all) (rw (law.original-parse v a e) e, parse_all-FromText vs)
  ]

  -- In a list without a descent nothing later is less than the head.
  above_head :
      (u v : Version) (vs : List Version)
      → less v u ≡ false
      → NoDescent less (v ∷ vs)
      → All (λ w. less w u ≡ false) (v ∷ vs)
  above_head u v [] h s = (h, tt)
  above_head u v (w ∷ vs) h s = (h, above_head u w vs (law.less_weak u v w h s.0) s.1)

  NoDescent-IsAscending :
      (vs : List Version) → All FromText vs → NoDescent less vs → IsAscending L (map original vs)
  NoDescent-IsAscending [] f s = tt
  NoDescent-IsAscending (v ∷ []) f s = (tt, tt)
  NoDescent-IsAscending (v ∷ w ∷ vs) f s = (
    below_all v (w ∷ vs) f.0 f.1 (above_head v w vs s.0 s.1),
    NoDescent-IsAscending (w ∷ vs) f.1 s.1,
  )
    where
      below_all :
          (u : Version) (ws : List Version)
          → FromText u
          → All FromText ws
          → All (λ x. less x u ≡ false) ws
          → All (λ t. Le L (original u) t) (map original ws)
      below_all u [] p q r = tt
      below_all u (x ∷ ws) p q r = (rw (p, q.0, r.0) refl, below_all u ws p q.1 r.1)

  -- SortAscending returns exactly the entries that parse, each as often as it was given, and each
  -- is at or below all that follow it.
  pub sort_ascending-sorts :
      (vs : List Str)
      → IsAscending L (sort_ascending L vs)
        × ((s : Str) → count s (sort_ascending L vs) ≡ (if parseable L s then count s vs else 0))
  unfolding sort_ascending
  sort_ascending-sorts vs = (
    NoDescent-IsAscending (sort (parse_all L vs))
        (All-perm FromText (law.sort-perm _) (parse_all-FromText vs)) (law.sort-NoDescent _),
    λ s. sym (count-perm original s (law.sort-perm (parse_all L vs))) ∙ count-parse_all s vs,
  )
