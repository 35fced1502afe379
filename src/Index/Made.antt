-- ===== src/Index/Made.antt =====
-- The indexes of internal/index that its operations can make.
use s3_registry.Prelude.{◌≡◌, sym, subst, ◌∙◌, Bool, arith}
use s3_registry.Text.{Str, count}
use s3_registry.Instant.{Instant}
use s3_registry.Result.{ok_inj, ok}
use s3_registry.Semver.{Library, IsLawful}
use s3_registry.Index.{Artifact, Index, new, sort_versions, upsert, remove, set_created}
use s3_registry.Index.View.{names, IsDistinct}
use s3_registry.Index.Sorted.{IsOrdered, sort_versions-sorts}
use s3_registry.Index.Upsert.{upsert_lem}
use s3_registry.Index.Remove.{remove_lem}
use s3_registry.Index.Kept.{Ordered, IsOrdered-remove, IsOrdered-set_created}

module _ (L : Library) where
  -- What the methods of an index make, from New or from any index that is sorted.
  pub data Made : Index → Type 0 where
    created : (name : Str) → Made (new name)
    sorted : (i : Index) {j : Index} → sort_versions L i ≡ ok j → Made j
    upserted :
        {i j : Index} (now : Instant) (k oa : Str) (a : Artifact)
        → Made i
        → upsert L now k oa a i ≡ ok j
        → Made j
    removed :
        {i j : Index} {done : Bool} (now : Instant) (k oa : Str)
        → Made i
        → remove now k oa i ≡ ok (j, done)
        → Made j
    stamped :
        {i j : Index} {done : Bool} (k : Str) (t : Instant)
        → Made i
        → set_created k t i ≡ ok (j, done)
        → Made j

  -- Every index that the methods make, in any order, is ordered by precedence with unparseable versions last,
  -- and has no version twice.
  pub Made-IsOrdered :
      IsLawful L → {i : Index} → Made i → IsOrdered L (names i.versions) × IsDistinct i.versions
  unfolding new count
  Made-IsOrdered law (created name) = (tt, λ k. omega arith)
  Made-IsOrdered law (sorted i {j = j} h) =
      let (k, run, _, _, form) = sort_versions-sorts L law i in
      subst (λ (x : Index). Ordered L x.versions × IsDistinct x.versions) (ok_inj (sym run ∙ h))
        (form.ordered, form.distinct)
  Made-IsOrdered law (upserted {i = i} {j = j} now k oa a m h) =
      let (x, run, up) = upsert_lem L law now k oa a i (Made-IsOrdered law m).1 in
      subst (λ (x : Index). Ordered L x.versions × IsDistinct x.versions) (ok_inj (sym run ∙ h))
        (up.ordered, up.distinct)
  Made-IsOrdered law (removed {i = i} {j = j} {done = done} now k oa m h) =
      let (o, d) = Made-IsOrdered law m in
      let (x, b, run, gone) = remove_lem now k oa i d in
      (
        IsOrdered-remove L now k oa i j done h o,
        subst (λ (y : Index × Bool). IsDistinct y.0.versions) (ok_inj (sym run ∙ h)) gone.distinct,
      )
  Made-IsOrdered law (stamped {i = i} {j = j} {done = done} k t m h) =
      IsOrdered-set_created L k t i j done h (Made-IsOrdered law m)
