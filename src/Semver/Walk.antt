-- ===== src/Semver/Walk.antt =====
-- The walk of Resolve in internal/semver over the versions, highest first, and its promise.
use mathlib.Core.Bool.{true≢false}
use mathlib.Core.Path.{subst}
use mathlib.Core.List.{reverse, reverse-cons}
use s3_registry.Prelude.{
  ◌≡◌, refl, sym, ap, ◌∙◌, true, false, none, some, List, [], ◌∷◌, ◌++◌, arith, All, All-append,
  Bool-cases, Option-cases, inl, inr,
}
use s3_registry.Text.{
  Str, contains, contains-append, All-contains, contains-All, contains-head, contains-tail,
  contains-split,
}
use s3_registry.Result.{Result, ok, err}
use s3_registry.Semver.{Library, IsLawful, wants_latest, scan}
use s3_registry.Semver.Order.{parseable, Le, Le-refl, IsAscending, IsDescending, satisfies}

module _ (L : Library) where
  -- What Resolve promises: a result is one of the given versions, satisfies the constraint and has
  -- every satisfying one at or below it; an error means that no given version satisfies it.
  abbrev pub IsResolution : Str → List Str → Result Str → Type 0
  IsResolution constraint vs (ok v) =
      (contains v vs ≡ true)
      × (satisfies L constraint v ≡ true)
      × ((w : Str) → contains w vs ≡ true → satisfies L constraint w ≡ true → Le L w v)
  IsResolution constraint vs (err e) =
      (w : Str) → contains w vs ≡ true → satisfies L constraint w ≡ false

  module _ (law : IsLawful L) where
    open L use {parse, parse_constraint, check}

    pub satisfies-parseable : (t v : Str) → satisfies L t v ≡ true → parseable L v ≡ true
    satisfies-parseable t v h = elim (Option-cases (parse v)) [
      | inl e ↦ cc (rw (e, satisfies) at h)
      | inr (a, e) ↦ rw e
    ]

    IsDescending-concat :
        (xs : List Str) (y : Str)
        → IsDescending L xs
        → All (λ x. Le L y x) xs
        → IsDescending L (xs ++ y ∷ [])
    IsDescending-concat [] y d h = (tt, tt)
    IsDescending-concat (x ∷ xs) y d h =
        (All-append (λ w. Le L w x) xs (y ∷ []) d.0 (h.0, tt), IsDescending-concat xs y d.1 h.1)

    pub contains-reverse : (s : Str) (xs : List Str) → contains s (reverse xs) ≡ contains s xs
    contains-reverse s [] = refl
    contains-reverse s (x ∷ xs) =
        rw (reverse-cons x xs, contains-append, contains-reverse s xs)
          (unfold contains in ground arith)

    pub IsDescending-reverse : (xs : List Str) → IsAscending L xs → IsDescending L (reverse xs)
    IsDescending-reverse [] a = tt
    IsDescending-reverse (x ∷ xs) a = rw (reverse-cons x xs) (
        IsDescending-concat (reverse xs) x (IsDescending-reverse xs a.1) (
          contains-All _ (reverse xs)
            (λ s h. All-contains (λ w. Le L x w) s xs a.0 (rw (contains-reverse s xs) at h))))

    scan_unparsed :
        (t v : Str) (c : L.Constraint) (ds : List Str)
        → parse v ≡ none
        → scan L t c (v ∷ ds) ≡ scan L t c ds
    unfolding scan
    scan_unparsed t v c ds e = rw (e, scan)

    scan_hit :
        (t v : Str) (c : L.Constraint) (ds : List Str) (a : L.Version)
        → parse v ≡ some a
        → check c a ≡ true
        → scan L t c (v ∷ ds) ≡ ok v
    unfolding scan
    scan_hit t v c ds a e y = rw (e, scan, y)

    scan_miss :
        (t v : Str) (c : L.Constraint) (ds : List Str) (a : L.Version)
        → parse v ≡ some a
        → check c a ≡ false
        → scan L t c (v ∷ ds) ≡ scan L t c ds
    unfolding scan
    scan_miss t v c ds a e n = rw (e, scan, n)

    -- one round of the walk: the head is skipped, or it is the answer
    skip_head :
        (t v : Str) (ds : List Str) (r : Result Str)
        → satisfies L t v ≡ false
        → IsResolution t ds r
        → IsResolution t (v ∷ ds) r
    skip_head t v ds (ok x) n h = (
      contains-tail x v ds h.0,
      h.1,
      λ w i k. elim (contains-split w v ds i) [
        | inl e ↦ absurd (true≢false (sym k ∙ (ap (satisfies L t) (sym e) ∙ n)))
        | inr i' ↦ h.2 w i' k
      ],
    )
    skip_head t v ds (err x) n h = λ w i. elim (contains-split w v ds i) [
      | inl e ↦ ap (satisfies L t) (sym e) ∙ n
      | inr i' ↦ h w i'
    ]

    take_head :
        (t v : Str) (ds : List Str)
        → satisfies L t v ≡ true
        → All (λ w. Le L w v) ds
        → IsResolution t (v ∷ ds) (ok v)
    take_head t v ds y d = (
      contains-head v ds,
      y,
      λ w i k. elim (contains-split w v ds i) [
        | inl e ↦ subst (λ x. Le L x v) e (Le-refl L law v (satisfies-parseable t v y))
        | inr i' ↦ All-contains (λ w. Le L w v) w ds d i'
      ],
    )

    pub scan-IsResolution :
        (t : Str) (c : L.Constraint) (ds : List Str)
        → wants_latest t ≡ false
        → parse_constraint t ≡ some c
        → IsDescending L ds
        → IsResolution t ds (scan L t c ds)
    scan-IsResolution t c [] p q d = unfold scan in (λ w h. absurd (unfold contains in (cc)))
    scan-IsResolution t c (v ∷ ds) p q d =
        let rest = scan-IsResolution t c ds p q d.1 in
        elim (Option-cases (parse v)) [
          | inl e ↦ rw (scan_unparsed t v c ds e) (skip_head t v ds _ (rw (e, satisfies)) rest)
          | inr (a, e) ↦ elim (Bool-cases (check c a)) [
            | inl y ↦
                rw (scan_hit t v c ds a e y) (take_head t v ds (rw (e, satisfies, p, q) y) d.0)
            | inr n ↦
                rw (scan_miss t v c ds a e n) (skip_head t v ds _ (rw (e, satisfies, p, q) n) rest)
          ]
        ]
