-- ===== src/Semver/Highest.antt =====
-- Resolve of internal/semver and its specification, the highest satisfying version.
use mathlib.Core.Bool.{true≢false}
use mathlib.Core.List.{reverse}
use s3_registry.Prelude.{
  ◌≢◌, ◌≡◌, sym, ◌∙◌, true, false, ◌&&◌, and_true, none, List, [], ◌∷◌, arith, All, Bool-cases,
  Option-cases, inl, inr,
}
use s3_registry.Text.{
  Str, contains, contains-eq-count, All-contains, contains-All, contains-head, contains-tail,
}
use s3_registry.Result.{Result, Error, ok, err, panic}
use s3_registry.Semver.{
  Library, IsLawful, last, wants_latest, scan, resolve_sorted, sort_ascending, resolve,
}
use s3_registry.Semver.Order.{parseable, Le, Le-refl, Le-trans, IsAscending, satisfies}
use s3_registry.Semver.Sorting.{sort_ascending-sorts}
use s3_registry.Semver.Walk.{
  IsResolution, satisfies-parseable, contains-reverse, IsDescending-reverse, scan-IsResolution,
}

module _ (L : Library) (law : IsLawful L) where
  open L use {parse, parse_constraint, check}

  -- Only the satisfying versions of a list matter.
  IsResolution-of :
      (t : Str) (xs ys : List Str) (r : Result Str)
      → ((s : Str) → contains s xs ≡ true → contains s ys ≡ true)
      → ((s : Str) → contains s ys ≡ true → satisfies L t s ≡ true → contains s xs ≡ true)
      → IsResolution L t xs r
      → IsResolution L t ys r
  IsResolution-of t xs ys (ok v) sub sup h = (sub v h.0, h.1, λ w i k. h.2 w (sup w i k) k)
  IsResolution-of t xs ys (err e) sub sup h = λ w i. elim (Bool-cases (satisfies L t w)) [
    | inl y ↦ absurd (true≢false (sym y ∙ h w (sup w i y)))
    | inr n ↦ n
  ]

  Le-last :
      (v : Str) (vs : List Str)
      → All (λ w. parseable L w ≡ true) (v ∷ vs)
      → IsAscending L (v ∷ vs)
      → All (λ w. Le L w (last v vs)) (v ∷ vs) × (contains (last v vs) (v ∷ vs) ≡ true)
  Le-last v [] p a = ((Le-refl L law v p.0, tt), contains-head v [])
  Le-last v (w ∷ vs) p a =
      let (h, c) = Le-last w vs p.1 a.1 in
      ((Le-trans L law v w (last w vs) a.0.0 h.0, h), contains-tail (last w vs) v (w ∷ vs) c)

  satisfies_latest :
      (t v : Str) → wants_latest t ≡ true → parseable L v ≡ true → satisfies L t v ≡ true
  satisfies_latest t v y p = elim (Option-cases (parse v)) [
    | inl e ↦ cc (rw (e, parseable) at p)
    | inr (a, e) ↦ rw (e, satisfies, y)
  ]

  resolve_latest :
      (t v : Str) (vs : List Str)
      → wants_latest t ≡ true
      → All (λ w. parseable L w ≡ true) (v ∷ vs)
      → IsAscending L (v ∷ vs)
      → IsResolution L t (v ∷ vs) (ok (last v vs))
  resolve_latest t v vs y p a =
      let (h, c) = Le-last v vs p a in
      (
        c,
        satisfies_latest t (last v vs) y (All-contains _ (last v vs) (v ∷ vs) p c),
        λ w i _. All-contains _ w (v ∷ vs) h i,
      )

  no_constraint :
      (t v : Str) → wants_latest t ≡ false → parse_constraint t ≡ none → satisfies L t v ≡ false
  no_constraint t v n e = elim (Option-cases (parse v)) [
    | inl q ↦ rw (q, satisfies)
    | inr (a, q) ↦ rw (q, satisfies, n, e)
  ]

  resolve_sorted-IsResolution :
      (t : Str) (vs : List Str)
      → All (λ w. parseable L w ≡ true) vs
      → IsAscending L vs
      → IsResolution L t vs (resolve_sorted L t vs)
  unfolding resolve_sorted
  resolve_sorted-IsResolution t [] p a = λ w h. absurd (unfold contains in (cc))
  resolve_sorted-IsResolution t (v ∷ vs) p a = elim (Bool-cases (wants_latest t)) [
    | inl y ↦ rw y (resolve_latest t v vs y p a)
    | inr n ↦ rw n (elim (Option-cases (parse_constraint t)) [
      | inl e ↦ rw e (λ w _. no_constraint t w n e)
      | inr (c, e) ↦ rw e (
          IsResolution-of t _ (v ∷ vs) _ (λ s h. rw (contains-reverse L law s (v ∷ vs)) at h)
            (λ s h _. rw (contains-reverse L law s (v ∷ vs)) h)
            (scan-IsResolution L law t c (reverse (v ∷ vs)) n e
              (IsDescending-reverse L law (v ∷ vs) a)))
    ])
  ]

  pub contains-sort_ascending :
      (s : Str) (vs : List Str)
      → contains s (sort_ascending L vs) ≡ (parseable L s && contains s vs)
  contains-sort_ascending s vs =
      rw (contains-eq-count, contains-eq-count, (sort_ascending-sorts L law vs).1 s) (ground arith)

  -- Resolve returns the highest of the given versions that satisfies the constraint, by the
  -- precedence of versions; it fails only if none of them satisfies it.
  pub resolve-IsResolution : (t : Str) (vs : List Str) → IsResolution L t vs (resolve L vs t)
  unfolding resolve
  resolve-IsResolution t [] = λ w h. absurd (unfold contains in (cc))
  resolve-IsResolution t (v ∷ vs) =
      IsResolution-of t (sort_ascending L (v ∷ vs)) (v ∷ vs) _
        (λ s h. (and_true _ _ (rw contains-sort_ascending at h)).1)
        (λ s h y. rw (contains-sort_ascending, satisfies-parseable L law t s y) h)
        (resolve_sorted-IsResolution t (sort_ascending L (v ∷ vs))
          (contains-All _ _ (λ s h. (and_true _ _ (rw contains-sort_ascending at h)).0))
          (sort_ascending-sorts L law (v ∷ vs)).0)

module _ (L : Library) where
  open L use {parse, parse_constraint, check}

  scan-no_panic :
      (t : Str) (c : L.Constraint) (vs : List Str) (e : Error) → scan L t c vs ≡ err e → e ≢ panic
  unfolding scan
  scan-no_panic t c [] e h = λ k. absurd (cc)
  scan-no_panic t c (v ∷ vs) e h = elim (Option-cases (parse v)) [
    | inl q ↦ scan-no_panic t c vs e (rw (q, scan) at h)
    | inr (a, q) ↦ elim (Bool-cases (check c a)) [
      | inl y ↦ absurd (ground (arith, (rw (q, scan, y) at h)))
      | inr n ↦ scan-no_panic t c vs e (rw (q, scan, n) at h)
    ]
  ]

  resolve_sorted-no_panic :
      (t : Str) (vs : List Str) (e : Error) → resolve_sorted L t vs ≡ err e → e ≢ panic
  unfolding resolve_sorted
  resolve_sorted-no_panic t [] e h = λ k. absurd (cc)
  resolve_sorted-no_panic t (v ∷ vs) e h = elim (Bool-cases (wants_latest t)) [
    | inl y ↦ absurd (ground (arith, y))
    | inr n ↦ elim (Option-cases (parse_constraint t)) [
      | inl q ↦ λ k. absurd (ground (arith, n, q))
      | inr (c, q) ↦ scan-no_panic t c _ e (rw (n, q, resolve_sorted) at h)
    ]
  ]

  -- The error of Resolve is not a panic.
  pub resolve-no_panic : (t : Str) (vs : List Str) (e : Error) → resolve L vs t ≡ err e → e ≢ panic
  unfolding resolve
  resolve-no_panic t [] e h = λ k. absurd (cc)
  resolve-no_panic t (v ∷ vs) e h = resolve_sorted-no_panic t _ e h
