-- ===== src/Index/Remove.antt =====
-- Remove of internal/index as a deletion from a finite map, in an index without duplicate entries.
use s3_registry.Prelude.{
  ℕ, ◌≡◌, Bool, true, false, none, some, [], arith, Option-cases, Bool-cases, inl, inr, sym, ◌∙◌,
  ap,
}
use s3_registry.Text.{Str, ◌==◌, contains}
use s3_registry.Dict.{lookup}
use s3_registry.Result.{ok, must}
use s3_registry.Instant.{Instant}
use s3_registry.Index.{
  Version, Index, entries, find_version, modify, at, delete_artifact, drop_if_empty,
  remove_artifact, remove,
}
use s3_registry.Index.View.{
  names, version_at, artifact_in, IsDistinct, is_some, is_some-version_at, is_some-find_version,
  at-find_version,
}
use s3_registry.Index.Placing.{modify_first}
use s3_registry.Index.Dropping.{drop_first, cut_first, find_version-update_first}
use s3_registry.Index.Removal.{
  IsRemoval, List-cases, nothing_removed, whole_removed, deleted, delete_artifact-version,
  version_at-deleted, artifact_removed, version_removed,
}

module _ (now : Instant) (k oa : Str) (i : Index) (d : IsDistinct i.versions) where
  absent : find_version k i.versions ≡ none → contains k (names i.versions) ≡ false
  absent f =
      sym (is_some-version_at k i.versions) ∙ sym (is_some-find_version k i.versions) ∙ ap is_some f

  not_found : find_version k i.versions ≡ none → remove now k oa i ≡ ok (i, false)
  unfolding remove
  not_found f = rw (f, remove)

  whole_run :
      (n : ℕ)
      → find_version k i.versions ≡ some n
      → oa == [] ≡ true
      → remove now k oa i
        ≡ ok (record i { updated = now; versions = drop_first k i.versions }, true)
  unfolding remove
  whole_run n f e = rw (f, remove, e, cut_first k i.versions n f)

  at_version :
      (n : ℕ) (v : Version)
      → find_version k i.versions ≡ some n
      → version_at k i.versions ≡ some v
      → at n i.versions ≡ ok v
  at_version n v f e = at-find_version k i.versions n f ∙ ap must e

  modify_run :
      (n : ℕ)
      → find_version k i.versions ≡ some n
      → modify n (delete_artifact oa) i.versions ≡ ok (deleted now k oa i d)
  modify_run n f = modify_first k (delete_artifact oa) i.versions n f

  find_deleted :
      (n : ℕ) → find_version k i.versions ≡ some n → find_version k (deleted now k oa i d) ≡ some n
  find_deleted n f =
      find_version-update_first k (delete_artifact oa) i.versions
        (delete_artifact-version now k oa i d)
      ∙ f

  at-deleted :
      (n : ℕ) (v : Version)
      → find_version k i.versions ≡ some n
      → version_at k i.versions ≡ some v
      → at n (deleted now k oa i d) ≡ ok (delete_artifact oa v)
  at-deleted n v f e =
      at-find_version k (deleted now k oa i d) n (find_deleted n f)
      ∙ ap must ((version_at-deleted now k oa i d) v e)

  to_artifact :
      (n : ℕ)
      → find_version k i.versions ≡ some n
      → oa == [] ≡ false
      → remove now k oa i ≡ remove_artifact now oa n i
  unfolding remove
  to_artifact n f one = rw (f, remove, one)

  -- Remove with an os-arch at a version that is there
  one_lem :
      (n : ℕ) (v : Version)
      → find_version k i.versions ≡ some n
      → oa == [] ≡ false
      → version_at k i.versions ≡ some v
      → (j : Index) × (done : Bool) × (remove now k oa i ≡ ok (j, done))
        × IsRemoval now k oa i j done
  unfolding remove_artifact drop_if_empty
  one_lem n v f one e = elim (Option-cases (lookup oa (entries v.artifacts))) [
    | inl none_there ↦ (
      i,
      false,
      to_artifact n f one ∙ ground (arith, at_version n v f e, none_there),
      (nothing_removed now k oa i d) (λ h. cc) (ap (artifact_in oa) e ∙ none_there),
    )
    | inr (a, there) ↦ elim (List-cases (entries (delete_artifact oa v).artifacts)) [
      | inl left ↦ (
        record i { updated = now; versions = drop_first k (deleted now k oa i d) },
        true,
        to_artifact n f one
            ∙ ground (
              arith,
              at_version n v f e,
              there,
              modify_run n f,
              at-deleted n v f e,
              left,
              cut_first k (deleted now k oa i d) n (find_deleted n f),
            ),
        (version_removed now k oa i d) v one e (ap is_some there) left,
      )
      | inr (p, ps, left) ↦ (
        record i { updated = now; versions = (deleted now k oa i d) },
        true,
        to_artifact n f one
            ∙ ground (arith, at_version n v f e, there, modify_run n f, at-deleted n v f e, left),
        (artifact_removed now k oa i d) v one e (ap is_some there) (λ q. cc),
      )
    ]
  ]

  -- On an index without duplicate versions Remove answers whether the version, or the artifact if an
  -- os-arch is given, was there; then it is gone and the index is stamped. All other artifacts and
  -- versions are as before, each version that is left keeps its time, and a version whose last
  -- artifact went is dropped.
  pub remove_lem :
      (j : Index) × (done : Bool) × (remove now k oa i ≡ ok (j, done)) × IsRemoval now k oa i j done
  remove_lem = elim (Option-cases (find_version k i.versions)) [
    | inl f ↦ (
      i,
      false,
      not_found f,
      (nothing_removed now k oa i d) (λ _. absent f)
          (ground (arith, absent f, is_some-version_at k i.versions)),
    )
    | inr (n, f) ↦ elim (Bool-cases (oa == [])) [
      | inl whole ↦ (_, true, whole_run n f whole, (whole_removed now k oa i d) n f whole)
      | inr one ↦ elim (Option-cases (version_at k i.versions)) [
        | inl e ↦ absurd (ground (arith, is_some-find_version k i.versions))
        | inr (v, e) ↦ one_lem n v f one e
      ]
    ]
  ]
