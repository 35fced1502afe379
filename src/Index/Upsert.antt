-- ===== src/Index/Upsert.antt =====
-- Upsert as a write to a finite map from a version and an os-arch to an artifact.
use mathlib.Core.List.{map-append}
use s3_registry.Prelude.{
  ◌≡◌, refl, not, ◌&&◌, ◌||◌, none, some, List, [], ◌∷◌, arith, if◌then◌else◌, Option-cases, inl,
  inr, sym, ◌∙◌, ap,
}
use s3_registry.Text.{Str, ◌==◌, eq_iff, count, contains, count-append, contains-eq-count}
use s3_registry.Dict.{lookup, lookup-insert}
use s3_registry.Result.{ok}
use s3_registry.Instant.{Instant}
use s3_registry.Semver.{Library, IsLawful}
use s3_registry.Index.{Artifact, Version, Index, entries, find_version, put_artifact, upsert}
use s3_registry.Index.View.{
  names, version_at, artifact_at, artifact_in, created_in, IsDistinct, is_some,
  is_some-find_version, is_some-version_at, version_at-append,
}
use s3_registry.Index.Sorted.{IsOrdered, IsSortedForm, sort_versions-sorts}
use s3_registry.Index.Distinct.{latest_artifact-distinct, earliest_created-distinct}
use s3_registry.Index.Placing.{
  placed, fresh, modify-locate, names-update_first, version_at-update_first,
}

artifact_in-put_artifact :
    (oa x : Str) (a : Artifact) (v : Version)
    → lookup x (entries (put_artifact oa a v).artifacts)
      ≡ (if oa == x then some a else lookup x (entries v.artifacts))
unfolding put_artifact
artifact_in-put_artifact oa x a v = lookup-insert oa x a (entries v.artifacts)

module _ (now : Instant) (k oa : Str) (a : Artifact) (vs : List Version) where
  version_at-placed :
      (j : Str)
      → version_at j (placed now k oa a vs) ≡ (
          if k == j
          then some (put_artifact oa a (elim (version_at k vs) [ none ↦ fresh k now | some v ↦ v ]))
          else version_at j vs)
  unfolding version_at put_artifact
  version_at-placed j = ground (
    arith,
    is_some-find_version k vs,
    version_at-append j vs (put_artifact oa a (fresh k now) ∷ []),
    version_at-update_first k j (put_artifact oa a) vs (λ v. refl),
    eq_iff k j,
  )

  abbrev old : Version
  old = elim (version_at k vs) [ none ↦ fresh k now | some v ↦ v ]

  artifact_at-placed :
      (v x : Str)
      → artifact_at v x (placed now k oa a vs)
        ≡ (if k == v && oa == x then some a else artifact_at v x vs)
  unfolding lookup
  artifact_at-placed v x =
      ap (artifact_in x) (version_at-placed v)
      ∙ ground (arith, artifact_in-put_artifact oa x a old, eq_iff k v)

  created_in-placed :
      (v : Str)
      → created_in (version_at v (placed now k oa a vs))
        ≡ (if k == v && not (contains v (names vs)) then now else created_in (version_at v vs))
  unfolding put_artifact
  created_in-placed v =
      ap created_in (version_at-placed v) ∙ ground (arith, is_some-version_at v vs, eq_iff k v)

  contains-placed :
      (j : Str) → contains j (names (placed now k oa a vs)) ≡ (k == j || contains j (names vs))
  contains-placed j =
      sym (is_some-version_at j (placed now k oa a vs))
      ∙ ap is_some (version_at-placed j)
      ∙ ground (arith, is_some-version_at j vs)

  placed-IsDistinct : IsDistinct vs → IsDistinct (placed now k oa a vs)
  placed-IsDistinct d j = elim (Option-cases (find_version k vs)) [
    | inl e ↦
        rw (e, placed)
          (rw
            (
              map-append (λ (v : Version). v.version) vs (put_artifact oa a (fresh k now) ∷ []),
              count-append j (names vs),
            )
            (unfold count put_artifact in
              ground (
                arith,
                d j,
                contains-eq-count j (names vs),
                is_some-version_at k vs,
                is_some-find_version k vs,
                eq_iff k j,
              )))
    | inr (n, e) ↦
        rw (e, placed)
          (rw (names-update_first k (put_artifact oa a) vs (λ v. unfold put_artifact in refl))
            (d j))
  ]

-- What Upsert promises of the index that it leaves.
pub record IsUpsert (L : Library) (now : Instant) (k oa : Str) (a : Artifact) (i j : Index)
    : Type 0 where
  pub name : j.name ≡ i.name
  pub updated : j.updated ≡ now
  pub ordered : IsOrdered L (names j.versions)
  pub distinct : IsDistinct j.versions
  pub same : (v : Str) → contains v (names j.versions) ≡ (k == v || contains v (names i.versions))
  pub artifacts :
      (v x : Str)
      → artifact_at v x j.versions
        ≡ (if k == v && oa == x then some a else artifact_at v x i.versions)
  pub created :
      (v : Str)
      → created_in (version_at v j.versions) ≡ (
          if k == v && not (contains v (names i.versions))
          then now
          else created_in (version_at v i.versions))

module _ (L : Library) (law : IsLawful L) (now : Instant) (k oa : Str) (a : Artifact)
    (i : Index) where
  -- Upsert sorts the list with the written entry; it never panics.
  pub upsert-sorts :
      (j : Index) × (upsert L now k oa a i ≡ ok j)
      × (j.name ≡ i.name)
      × (j.updated ≡ now)
      × IsSortedForm L (placed now k oa a i.versions) j.versions
  unfolding upsert
  upsert-sorts = rw (modify-locate now k oa a i.versions) (
      sort_versions-sorts L law
        (record i { updated = now; versions = placed now k oa a i.versions }))

  -- On an index without duplicate versions Upsert never panics. The index is stamped now, ordered
  -- and again without duplicates; exactly the given version and os-arch are overwritten, and every
  -- other artifact is as before. A new version is created now; one that was there keeps its time.
  pub upsert_lem :
      IsDistinct i.versions
      → (j : Index) × (upsert L now k oa a i ≡ ok j) × IsUpsert L now k oa a i j
  upsert_lem d =
      let (j, run, name, stamp, form) = upsert-sorts in
      let p = placed-IsDistinct now k oa a i.versions d in
      (
        j,
        run,
        record {
          name = name;
          updated = stamp;
          ordered = form.ordered;
          distinct = form.distinct;
          same = λ v. form.same v ∙ contains-placed now k oa a i.versions v;
          artifacts = λ v x.
              form.artifacts v x
              ∙ latest_artifact-distinct v x _ p
              ∙ artifact_at-placed now k oa a i.versions v x;
          created = λ v.
              form.created v
              ∙ earliest_created-distinct v _ p
              ∙ created_in-placed now k oa a i.versions v;
        },
      )
