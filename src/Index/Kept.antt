-- ===== src/Index/Kept.antt =====
-- Remove and SetCreated of internal/index leave an ordered index ordered.
use s3_registry.Prelude.{
  ℕ, zero, suc, ◌≡◌, refl, sym, subst, ap, ◌∙◌, Bool, true, false, Option, none, some, List, [],
  ◌∷◌, All, Bool-cases, inl, inr, ◌≤◌, if◌then◌else◌,
}
use s3_registry.Text.{Str, ◌==◌, count}
use s3_registry.Instant.{Instant}
use s3_registry.Dict.{Dict, lookup}
use s3_registry.Result.{ok_inj, Result, ok, err, ◌>>=◌}
use s3_registry.Semver.{Library}
use s3_registry.Index.{
  Artifact, Version, Index, find_version, at, modify, cut, delete_artifact, drop_if_empty,
  remove_artifact, remove, set_created, entries,
}
use s3_registry.Index.View.{names, IsDistinct}
use s3_registry.Index.Sorted.{IsOrdered}

-- What a chain that succeeds has passed through
bind_ok {ℓ} :
    {A B : Type ℓ} (m : Result A) (f : A → Result B) (y : B)
    → (m >>= f) ≡ ok y
    → (x : A) × (m ≡ ok x) × (f x ≡ ok y)
bind_ok (ok x) f y h = (x, refl, h)
bind_ok (err e) f y h = absurd (err≢ok h)
  where
    err≢ok : ¬ (err e ≡ ok y)
    err≢ok q = cc

names-modify :
    (n : ℕ) (f : Version → Version) (vs ws : List Version)
    → ((v : Version) → (f v).version ≡ v.version)
    → modify n f vs ≡ ok ws
    → names ws ≡ names vs
unfolding modify
names-modify n f [] ws same h = absurd (cc)
names-modify zero f (v ∷ vs) ws same h = ap names (sym (ok_inj h)) ∙ ap (λ x. x ∷ names vs) (same v)
names-modify (suc n) f (v ∷ vs) ws same h =
    let (rest, run, e) = bind_ok (modify n f vs) (λ rest. ok (v ∷ rest)) ws h in
    ap names (sym (ok_inj e)) ∙ ap (λ x. v.version ∷ x) (names-modify n f vs rest same run)

All-cut :
    (P : Str → Type 0) (n : ℕ) (vs ws : List Version)
    → cut n vs ≡ ok ws
    → All P (names vs)
    → All P (names ws)
unfolding cut
All-cut P n [] ws h o = absurd (cc)
All-cut P zero (v ∷ vs) ws h (a, o) = subst (λ x. All P (names x)) (ok_inj h) o
All-cut P (suc n) (v ∷ vs) ws h (a, o) =
    let (rest, run, e) = bind_ok (cut n vs) (λ rest. ok (v ∷ rest)) ws h in
    subst (λ x. All P (names x)) (ok_inj e) (a, All-cut P n vs rest run o)

module _ (L : Library) where
  abbrev pub Ordered : List Version → Type 0
  Ordered vs = IsOrdered L (names vs)

  IsOrdered-cut : (n : ℕ) (vs ws : List Version) → cut n vs ≡ ok ws → Ordered vs → Ordered ws
  unfolding cut
  IsOrdered-cut n [] ws h o = absurd (cc)
  IsOrdered-cut zero (v ∷ vs) ws h (a, o) = subst Ordered (ok_inj h) o
  IsOrdered-cut (suc n) (v ∷ vs) ws h (a, o) =
      let (rest, run, e) = bind_ok (cut n vs) (λ rest. ok (v ∷ rest)) ws h in
      subst Ordered (ok_inj e) (All-cut _ n vs rest run a, IsOrdered-cut n vs rest run o)

  IsOrdered-drop_if_empty :
      (n : ℕ) (vs ws : List Version) → drop_if_empty n vs ≡ ok ws → Ordered vs → Ordered ws
  unfolding drop_if_empty
  IsOrdered-drop_if_empty n vs ws h o =
      let (v, run, e) = bind_ok (at n vs) _ ws h in dropped (entries v.artifacts) e
    where
      dropped :
          (m : Dict Artifact)
          → elim m as (λ _. Result (List Version)) [ [] ↦ cut n vs | _ ∷ _ ↦ ok vs ] ≡ ok ws
          → Ordered ws
      dropped [] e = IsOrdered-cut n vs ws e o
      dropped (x ∷ m) e = subst Ordered (ok_inj e) o

  IsOrdered-modify :
      (n : ℕ) (f : Version → Version) (vs ws : List Version)
      → ((v : Version) → (f v).version ≡ v.version)
      → modify n f vs ≡ ok ws
      → Ordered vs
      → Ordered ws
  IsOrdered-modify n f vs ws same h o = subst (IsOrdered L) (sym (names-modify n f vs ws same h)) o

  IsOrdered-remove_artifact :
      (now : Instant) (oa : Str) (n : ℕ) (i j : Index) (done : Bool)
      → remove_artifact now oa n i ≡ ok (j, done)
      → Ordered i.versions
      → Ordered j.versions
  unfolding remove_artifact delete_artifact
  IsOrdered-remove_artifact now oa n i j done h o =
      let (v, run, e) = bind_ok (at n i.versions) _ (j, done) h in
      without (lookup oa (entries v.artifacts)) e
    where
      ordered :
          {x : Index}
          → ◌≡◌ {A = Index × Bool} (x, true) (j, done)
          → Ordered x.versions
          → Ordered j.versions
      ordered q p = subst (λ (y : Index × Bool). Ordered y.0.versions) q p

      without :
          (a : Option Artifact)
          → elim a as (λ _. Result (Index × Bool)) [
            | none ↦ ok (i, false)
            | some _ ↦ do
              vs ← modify n (delete_artifact oa) i.versions
              vs' ← drop_if_empty n vs
              ok (record i { updated = now; versions = vs' }, true)
          ]
            ≡ ok (j, done)
          → Ordered j.versions
      without none e = subst (λ (y : Index × Bool). Ordered y.0.versions) (ok_inj e) o
      without (some a) e =
          let (vs, run, e') = bind_ok (modify n (delete_artifact oa) i.versions) _ (j, done) e in
          let (ws, run', e'') = bind_ok (drop_if_empty n vs) _ (j, done) e' in
          ordered (ok_inj e'') (
            IsOrdered-drop_if_empty n vs ws run'
              (IsOrdered-modify n (delete_artifact oa) i.versions vs (λ v. refl) run o))

  -- Remove leaves an ordered index ordered.
  pub IsOrdered-remove :
      (now : Instant) (k oa : Str) (i j : Index) (done : Bool)
      → remove now k oa i ≡ ok (j, done)
      → Ordered i.versions
      → Ordered j.versions
  unfolding remove
  IsOrdered-remove now k oa i j done h o = found (find_version k i.versions) h
    where
      found :
          (f : Option ℕ)
          → elim f as (λ _. Result (Index × Bool)) [
            | none ↦ ok (i, false)
            | some n ↦
                if oa == []
                then (do
                  vs ← cut n i.versions
                  ok (record i { updated = now; versions = vs }, true))
                else remove_artifact now oa n i
          ]
            ≡ ok (j, done)
          → Ordered j.versions
      found none e = subst (λ (y : Index × Bool). Ordered y.0.versions) (ok_inj e) o
      found (some n) e = elim (Bool-cases (oa == [])) [
        | inl y ↦
            let (vs, run, e') = bind_ok (cut n i.versions) _ (j, done) (rw y at e) in
            subst (λ (z : Index × Bool). Ordered z.0.versions) (ok_inj e')
              (IsOrdered-cut n i.versions vs run o)
        | inr part ↦ IsOrdered-remove_artifact now oa n i j done (rw part at e) o
      ]

  pub IsOrdered-set_created :
      (k : Str) (t : Instant) (i j : Index) (done : Bool)
      → set_created k t i ≡ ok (j, done)
      → Ordered i.versions × IsDistinct i.versions
      → Ordered j.versions × IsDistinct j.versions
  unfolding set_created
  IsOrdered-set_created k t i j done h o = found (find_version k i.versions) h
    where
      Good : List Str → Type 0
      Good ks = IsOrdered L ks × ((v : Str) → count v ks ≤ 1)

      found :
          (f : Option ℕ)
          → elim f as (λ _. Result (Index × Bool)) [
            | none ↦ ok (i, false)
            | some n ↦ do
              vs ← modify n (λ v. record v { created = t }) i.versions
              ok (record i { versions = vs }, true)
          ]
            ≡ ok (j, done)
          → Good (names j.versions)
      found none e = subst (λ (y : Index × Bool). Good (names y.0.versions)) (ok_inj e) o
      found (some n) e =
          let (vs, run, e') =
            bind_ok (modify n (λ v. record v { created = t }) i.versions) _ (j, done) e in
          subst (λ (z : Index × Bool). Good (names z.0.versions)) (ok_inj e')
            (subst Good (sym (names-modify n _ i.versions vs (λ v. refl) run)) o)
