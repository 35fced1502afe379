-- ===== src/Index/Shadowed.antt =====
-- Upsert of internal/index on an index with duplicate entries of a version.
use s3_registry.Prelude.{
  ◌≡◌, ◌≢◌, refl, false, none, some, List, [], ◌∷◌, ◌++◌, arith, ◌∙◌, Option-cases, inl, inr,
}
use s3_registry.Text.{Str, eq_iff, contains}
use s3_registry.Result.{ok}
use s3_registry.Instant.{Instant}
use s3_registry.Semver.{Library, IsLawful}
use s3_registry.Index.{Artifact, Version, Index, find_version, put_artifact, upsert}
use s3_registry.Index.View.{names, artifact_at}
use s3_registry.Index.Folding.{latest_artifact}
use s3_registry.Index.Placing.{update_first, placed}
use s3_registry.Index.Upsert.{upsert-sorts}

-- Writing to the first of two entries does not show where a later one has the os-arch.
latest_artifact-update_first :
    (k oa : Str) (f : Version → Version) (xs : List Version) (x : Version) (ys : List Version)
    (b : Artifact)
    → ((v : Version) → (f v).version ≡ v.version)
    → contains k (names xs) ≡ false
    → x.version ≡ k
    → latest_artifact k oa ys ≡ some b
    → latest_artifact k oa (update_first k f (xs ++ x ∷ ys)) ≡ some b
unfolding latest_artifact update_first contains
latest_artifact-update_first k oa f [] x ys b keep h e l = ground (arith, eq_iff x.version k)
latest_artifact-update_first k oa f (v ∷ xs) x ys b keep h e l =
    ground (arith, latest_artifact-update_first k oa f xs x ys b keep)

find_version-middle :
    (k : Str) (xs : List Version) (x : Version) (ys : List Version)
    → x.version ≡ k
    → find_version k (xs ++ x ∷ ys) ≢ none
unfolding find_version
find_version-middle k [] x ys e = ground (arith, eq_iff x.version k)
find_version-middle k (v ∷ xs) x ys e = ground (arith, find_version-middle k xs x ys e)

latest_artifact-placed :
    (now : Instant) (k oa : Str) (a b : Artifact) (xs : List Version) (x : Version)
    (ys : List Version)
    → contains k (names xs) ≡ false
    → x.version ≡ k
    → latest_artifact k oa ys ≡ some b
    → latest_artifact k oa (placed now k oa a (xs ++ x ∷ ys)) ≡ some b
latest_artifact-placed now k oa a b xs x ys first e l =
    elim (Option-cases (find_version k (xs ++ x ∷ ys))) [
      | inl n ↦ absurd (find_version-middle k xs x ys e n)
      | inr (n, s) ↦
          rw (s, placed)
            (latest_artifact-update_first k oa (put_artifact oa a) xs x ys b
              (λ v. unfold put_artifact in refl) first e l)
    ]

-- Where two entries of a version stand in the index and one after the first has the os-arch, Upsert
-- loses the artifact that it is given: the index still names the old one.
pub upsert_shadowed :
    (L : Library)
    → IsLawful L
    → (now : Instant) (k oa : Str) (a b : Artifact) (i : Index) (xs : List Version) (x : Version)
      (ys : List Version)
    → i.versions ≡ xs ++ x ∷ ys
    → contains k (names xs) ≡ false
    → x.version ≡ k
    → latest_artifact k oa ys ≡ some b
    → (j : Index) × (upsert L now k oa a i ≡ ok j) × (artifact_at k oa j.versions ≡ some b)
upsert_shadowed L law now k oa a b i xs x ys split first e l =
    let (j, run, _, _, form) = upsert-sorts L law now k oa a i in
    (j, run, form.artifacts k oa ∙ rw split (latest_artifact-placed now k oa a b xs x ys first e l))
