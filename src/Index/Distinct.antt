-- ===== src/Index/Distinct.antt =====
-- Merging the entries of an index of internal/index that has no duplicates.
use s3_registry.Prelude.{
  ◌≡◌, refl, true, false, none, List, [], ◌∷◌, arith, Bool-cases, inl, inr, sym, ◌∙◌,
}
use s3_registry.Text.{Str, ◌==◌, count, contains, contains-eq-count}
use s3_registry.Instant.{is_zero, zero_time}
use s3_registry.Index.{Version}
use s3_registry.Index.View.{names, version_at, artifact_at, created_in, IsDistinct}
use s3_registry.Index.Folding.{latest_artifact, earliest_created, earlier_zero, zero_earlier}

latest_artifact_absent :
    (k oa : Str) (vs : List Version)
    → contains k (names vs) ≡ false
    → latest_artifact k oa vs ≡ none
unfolding latest_artifact contains
latest_artifact_absent k oa [] h = refl
latest_artifact_absent k oa (v ∷ vs) h = ground (arith, latest_artifact_absent k oa vs)

earliest_created_absent :
    (k : Str) (vs : List Version)
    → contains k (names vs) ≡ false
    → earliest_created k vs ≡ zero_time
unfolding earliest_created contains is_zero
earliest_created_absent k [] h = refl
earliest_created_absent k (v ∷ vs) h = ground (arith, earliest_created_absent k vs)

pub IsDistinct-tail : (v : Version) (vs : List Version) → IsDistinct (v ∷ vs) → IsDistinct vs
unfolding count
IsDistinct-tail v vs h k = omega (arith, h k)

-- The head of an index without duplicates occurs nowhere else.
pub IsDistinct-head :
    (v : Version) (vs : List Version)
    → IsDistinct (v ∷ vs)
    → (k : Str) → v.version == k ≡ true
    → contains k (names vs) ≡ false
unfolding count
IsDistinct-head v vs h k e = ground (arith, h k, contains-eq-count k (names vs))

pub latest_artifact-distinct :
    (k oa : Str) (vs : List Version) → IsDistinct vs → latest_artifact k oa vs ≡ artifact_at k oa vs
unfolding latest_artifact version_at
latest_artifact-distinct k oa [] d = refl
latest_artifact-distinct k oa (v ∷ vs) d = ground (
  arith,
  latest_artifact-distinct k oa vs (IsDistinct-tail v vs d),
  latest_artifact_absent k oa vs,
  IsDistinct-head v vs d k,
)

pub earliest_created-distinct :
    (k : Str) (vs : List Version)
    → IsDistinct vs
    → earliest_created k vs ≡ created_in (version_at k vs)
unfolding earliest_created version_at
earliest_created-distinct k [] d = refl
earliest_created-distinct k (v ∷ vs) d = elim (Bool-cases (v.version == k)) [
  | inl y ↦
      rw (y, earliest_created_absent k vs (IsDistinct-head v vs d k y)) (earlier_zero v.created)
  | inr n ↦ rw n (
      sym (zero_earlier (earliest_created k vs))
      ∙ earliest_created-distinct k vs (IsDistinct-tail v vs d))
]
