-- ===== src/Index/Removal.antt =====
-- What Remove of internal/index leaves, for each way in which it ends.
use s3_registry.Prelude.{
  ℕ, ◌≡◌, refl, Bool, true, false, ◌&&◌, ◌||◌, Option, none, some, List, [], ◌∷◌, arith,
  if◌then◌else◌, Option-cases, Bool-cases, inl, inr, sym, ◌∙◌, ap, ◌≢◌, ◌⊎◌,
}
use s3_registry.Text.{Str, ◌==◌, eq_iff, eq_refl, contains}
use s3_registry.Dict.{lookup, lookup-erase}
use s3_registry.Instant.{Instant}
use s3_registry.Index.{Version, Index, entries, find_version, delete_artifact}
use s3_registry.Index.View.{
  names, version_at, artifact_at, artifact_in, created_in, IsDistinct, is_some, is_some-version_at,
  is_some-find_version,
}
use s3_registry.Index.Placing.{update_first, names-update_first, version_at-update_first}
use s3_registry.Index.Dropping.{drop_first, count-drop_first, version_at-drop_first}

-- The artifacts of a version that Remove leaves in the index are not empty.
abbrev pub HasArtifacts : Option Version → Type 0
HasArtifacts none = Unit
HasArtifacts (some v) = entries v.artifacts ≢ []

-- What Remove promises of its answer and of the index that it leaves.
pub record IsRemoval (now : Instant) (k oa : Str) (i j : Index) (done : Bool) : Type 0 where
  pub answer :
      done
      ≡ (if oa == [] then contains k (names i.versions) else is_some (artifact_at k oa i.versions))
  pub name : j.name ≡ i.name
  pub updated : j.updated ≡ (if done then now else i.updated)
  pub artifacts :
      (v x : Str)
      → artifact_at v x j.versions
        ≡ (if k == v && (oa == [] || oa == x) then none else artifact_at v x i.versions)
  pub created :
      (v : Str)
      → contains v (names j.versions) ≡ true
      → created_in (version_at v j.versions) ≡ created_in (version_at v i.versions)
  pub others : (v : Str) → k == v ≡ false → version_at v j.versions ≡ version_at v i.versions
  pub distinct : IsDistinct j.versions
  pub no_empty : done ≡ true → HasArtifacts (version_at k j.versions)

pub List-cases {ℓ} :
    {A : Type ℓ} (xs : List A) → (xs ≡ []) ⊎ ((x : A) × (ys : List A) × (xs ≡ x ∷ ys))
List-cases [] = inl refl
List-cases (x ∷ xs) = inr (x, xs, refl)

module _ (now : Instant) (k oa : Str) (i : Index) (d : IsDistinct i.versions) where
  -- nothing of that version or os-arch
  pub nothing_removed :
      (oa == [] ≡ true → contains k (names i.versions) ≡ false)
      → artifact_at k oa i.versions ≡ none
      → IsRemoval now k oa i i false
  nothing_removed whole one = record {
    answer = ground (arith, whole);
    name = refl;
    updated = refl;
    artifacts =
        λ v x. ground (arith, whole, one, is_some-version_at k i.versions, eq_iff k v, eq_iff oa x);
    created = λ v h. refl;
    others = λ v h. refl;
    distinct = d;
    no_empty = λ h. absurd (cc);
  }

  pub whole_removed :
      (n : ℕ)
      → find_version k i.versions ≡ some n
      → oa == [] ≡ true
      → IsRemoval now k oa i (record i { updated = now; versions = drop_first k i.versions }) true
  whole_removed n f e = record {
    answer = ground (arith, is_some-find_version k i.versions, is_some-version_at k i.versions);
    name = refl;
    updated = refl;
    artifacts = λ v x. ground (arith, version_at-drop_first k v i.versions d);
    created = λ v h. ground (
      arith,
      version_at-drop_first k v i.versions d,
      is_some-version_at v (drop_first k i.versions),
      h,
    );
    others = λ v h. version_at-drop_first k v i.versions d ∙ rw h;
    distinct = λ j. omega (arith, count-drop_first k j i.versions, d j);
    no_empty = λ h. rw (version_at-drop_first k k i.versions d, eq_refl) tt;
  }

  -- the versions with the artifact deleted
  abbrev pub deleted : List Version
  deleted = update_first k (delete_artifact oa) i.versions

  pub delete_artifact-version : (v : Version) → (delete_artifact oa v).version ≡ v.version
  unfolding delete_artifact
  delete_artifact-version v = refl

  pub version_at-deleted :
      (v : Version)
      → version_at k i.versions ≡ some v
      → version_at k deleted ≡ some (delete_artifact oa v)
  version_at-deleted v e = ground (
    arith,
    version_at-update_first k k (delete_artifact oa) i.versions delete_artifact-version,
    eq_refl k,
  )

  artifact_in-delete_artifact :
      (v : Version) (x : Str)
      → artifact_in x (some (delete_artifact oa v))
        ≡ (if oa == x then none else artifact_in x (some v))
  unfolding delete_artifact lookup
  artifact_in-delete_artifact v x = ground (arith, lookup-erase oa x (entries v.artifacts))

  artifact_at-deleted :
      (v x : Str)
      → artifact_at v x deleted ≡ (if k == v && oa == x then none else artifact_at v x i.versions)
  artifact_at-deleted v x =
      ap (artifact_in x)
        (version_at-update_first k v (delete_artifact oa) i.versions delete_artifact-version)
      ∙ elim (Option-cases (version_at k i.versions)) [
        | inl e ↦ ground (arith, e, eq_iff k v)
        | inr (w, e) ↦ ground (arith, e, eq_iff k v, artifact_in-delete_artifact w x)
      ]

  deleted_others : (w : Str) → k == w ≡ false → version_at w deleted ≡ version_at w i.versions
  deleted_others w h =
      version_at-update_first k w (delete_artifact oa) i.versions delete_artifact-version ∙ rw h

  created-deleted :
      (w : Str) → created_in (version_at w deleted) ≡ created_in (version_at w i.versions)
  unfolding delete_artifact
  created-deleted w =
      ap created_in
        (version_at-update_first k w (delete_artifact oa) i.versions delete_artifact-version)
      ∙ elim (Option-cases (version_at w i.versions)) [
        | inl e ↦ ground (arith, e, eq_iff k w)
        | inr (v, e) ↦ ground (arith, e, eq_iff k w)
      ]

  deleted-IsDistinct : IsDistinct deleted
  deleted-IsDistinct j =
      rw (names-update_first k (delete_artifact oa) i.versions delete_artifact-version) (d j)

  -- the artifact is gone and others are left
  pub artifact_removed :
      (v : Version)
      → oa == [] ≡ false
      → version_at k i.versions ≡ some v
      → is_some (artifact_in oa (some v)) ≡ true
      → entries (delete_artifact oa v).artifacts ≢ []
      → IsRemoval now k oa i (record i { updated = now; versions = deleted }) true
  artifact_removed v whole e there left = record {
    answer = ground (arith, whole, e, there);
    name = refl;
    updated = refl;
    artifacts = λ w x. artifact_at-deleted w x ∙ rw whole;
    created = λ w h. created-deleted w;
    others = λ w h. deleted_others w h;
    distinct = deleted-IsDistinct;
    no_empty = λ h. rw (version_at-deleted v e) left;
  }

  -- an emptied version names nothing
  emptied :
      (v : Version)
      → version_at k i.versions ≡ some v
      → entries (delete_artifact oa v).artifacts ≡ []
      → (x : Str) → none ≡ (if oa == x then none else artifact_at k x i.versions)
  unfolding lookup
  emptied v e left x = rw e (sym (ap (lookup x) left) ∙ artifact_in-delete_artifact v x)

  -- the version went with its last artifact
  pub version_removed :
      (v : Version)
      → oa == [] ≡ false
      → version_at k i.versions ≡ some v
      → is_some (artifact_in oa (some v)) ≡ true
      → entries (delete_artifact oa v).artifacts ≡ []
      → IsRemoval now k oa i (record i { updated = now; versions = drop_first k deleted }) true
  version_removed v whole e there left = record {
    answer = ground (arith, whole, e, there);
    name = refl;
    updated = refl;
    artifacts = λ w x.
        ap (artifact_in x) (version_at-drop_first k w deleted deleted-IsDistinct)
        ∙ elim (Bool-cases (k == w)) [
          | inl y ↦
              rw (y, whole)
                (emptied v e left x
                  ∙ ap (λ o. if oa == x then none else artifact_in x o)
                      (ap (λ u. version_at u i.versions) ((eq_iff k w).0 y)))
          | inr n ↦ rw n (ap (artifact_in x) (deleted_others w n))
        ];
    created = λ w h. ground (
      arith,
      version_at-drop_first k w deleted deleted-IsDistinct,
      is_some-version_at w (drop_first k deleted),
      created-deleted w,
      h,
    );
    others =
        λ w h. version_at-drop_first k w deleted deleted-IsDistinct ∙ rw h (deleted_others w h);
    distinct = λ j. omega (arith, count-drop_first k j deleted, deleted-IsDistinct j);
    no_empty = λ h. rw (version_at-drop_first k k deleted deleted-IsDistinct, eq_refl) tt;
  }
