-- ===== src/Reindex/Rebuilt.antt =====
-- The index that reindex builds from the objects of a tool and the current index.
use s3_registry.Prelude.{
  All, ℕ, ◌≤◌, ◌≡◌, refl, sym, subst, ◌∙◌, false, Option, none, some, List, [], arith,
  if◌then◌else◌, Option-cases, inl, inr,
}
use s3_registry.Prelude.Int.{ℤ}
use s3_registry.Text.{Str, contains, count}
use s3_registry.Dict.{Dict, lookup}
use s3_registry.Instant.{Instant, zero_time}
use s3_registry.Result.{Result, ok}
use s3_registry.Semver.{Library, IsLawful}
use s3_registry.Index.{Index, new, releases}
use s3_registry.Index.View.{
  names, version_at, artifact_at, created_in, IsDistinct, is_some-version_at,
}
use s3_registry.Index.Sorted.{IsOrdered, IsSortedForm, sort_versions-sorts}
use s3_registry.Index.Distinct.{latest_artifact-distinct, earliest_created-distinct}
use s3_registry.Store.Listing.{Object}
use s3_registry.Reindex.{time_or_zero, publish_time, Build, rebuild, current_times}
use s3_registry.Reindex.Times.{
  AreStamped, time_in, current_times_lem, stamp_all_lem, is_listed-releases,
}
use s3_registry.Reindex.Objects.{
  NoZero, has_version, last_artifact, earliest_time, IsBuilt, add_objects_lem,
}

module _ (tool : Str) (digest : Str → Str × ℤ) where
  -- The time of publication of a version that the objects have.
  abbrev pub time_of_version : (Str → Option Instant) → List Object → Str → Instant
  time_of_version known objs v = elim (known v) [
    | some t ↦ t
    | none ↦ earliest_time tool digest v objs zero_time
  ]

  -- What reindex promises of the index that it builds.
  pub record IsRebuilt (L : Library) (known : Str → Option Instant) (objs : List Object)
      (idx : Index) : Type 0 where
    pub name : idx.name ≡ tool
    pub ordered : IsOrdered L (names idx.versions)
    pub distinct : IsDistinct idx.versions
    pub same : (v : Str) → contains v (names idx.versions) ≡ has_version tool digest v objs
    pub artifacts :
        (v x : Str) → artifact_at v x idx.versions ≡ last_artifact tool digest v x objs none
    pub created_at :
        (v : Str)
        → created_in (version_at v idx.versions)
          ≡ (if has_version tool digest v objs then time_of_version known objs v else zero_time)

  module _ (L : Library) (law : IsLawful L) (hash : Str → Result (Str × ℤ))
      (clock : ℕ → Instant) where
    abbrev start : Build
    start = record { rebuilt = new tool; earliest = [] }

    start-IsDistinct : IsDistinct start.rebuilt.versions
    unfolding new count
    start-IsDistinct k = omega arith

    start-NoZero : NoZero start.earliest
    unfolding lookup
    start-NoZero v t h = absurd (cc)

    absent_time :
        (v : Str) (i : Index)
        → contains v (names i.versions) ≡ false
        → created_in (version_at v i.versions) ≡ zero_time
    absent_time v i h = ground (arith, is_some-version_at v i.versions)

    chosen_time :
        (created earliest : Dict Instant) (known : Str → Option Instant) (objs : List Object)
        (v : Str)
        → lookup v created ≡ known v
        → time_or_zero (lookup v earliest) ≡ earliest_time tool digest v objs zero_time
        → publish_time created earliest v ≡ time_of_version known objs v
    unfolding publish_time
    chosen_time created earliest known objs v same h = elim (Option-cases (lookup v created)) [
      | inl e ↦ rw (sym same, e, publish_time, time_of_version) h
      | inr (t, e) ↦ rw (sym same, e, publish_time, time_of_version) refl
    ]

    sorted-IsRebuilt :
        (created : Dict Instant) (known : Str → Option Instant) (objs : List Object) (s : Build)
        (i j : Index)
        → ((v : Str) → lookup v created ≡ known v)
        → IsBuilt tool digest objs start s
        → AreStamped (publish_time created s.earliest) (releases s.rebuilt) s.rebuilt i
        → j.name ≡ i.name
        → IsSortedForm L i.versions j.versions
        → IsRebuilt L known objs j
    unfolding new version_at contains lookup
    sorted-IsRebuilt created known objs s i j times built st name form =
        let d : IsDistinct i.versions =
          λ k. subst (λ ns. count k ns ≤ 1) (sym st.same) (built.distinct k) in
        record {
          name = name ∙ st.name ∙ built.name;
          ordered = form.ordered;
          distinct = form.distinct;
          same = λ v. ground (arith, form.same v, st.same, built.same v);
          artifacts = λ v x.
              form.artifacts v x
              ∙ latest_artifact-distinct v x i.versions d
              ∙ st.artifacts v x
              ∙ built.artifacts v x;
          created_at = λ v.
              form.created v
              ∙ earliest_created-distinct v i.versions d
              ∙ st.created v
              ∙ ground (
                arith,
                is_listed-releases v s.rebuilt,
                built.same v,
                chosen_time created s.earliest known objs v (times v) (built.times v),
                absent_time v s.rebuilt,
              );
        }

    -- If the current index, where there is one, and all objects can be read, reindex rebuilds the index:
    -- it is ordered and without duplicates and has exactly the versions that the objects' keys name,
    -- each os-arch with the last such object and its digest and size. A version keeps the time of
    -- publication in the current index, or else has the earliest time at which its objects changed.
    pub rebuild_lem :
        (objs : List Object) (current : Result (Index × Str)) (created : Dict Instant)
        → All (λ (obj : Object). hash obj.key ≡ ok (digest obj.key)) objs
        → current_times current ≡ ok created
        → (idx : Index) × (rebuild L hash clock tool objs current ≡ ok idx)
          × IsRebuilt L (time_in current) objs idx
    unfolding rebuild
    rebuild_lem objs current created read h =
        let (s, run, built) =
          add_objects_lem tool digest L law hash clock 0 objs start read start-IsDistinct
            start-NoZero in
        let (i, stamps, st) = stamp_all_lem created s.earliest (releases s.rebuilt) s.rebuilt in
        let (j, sorts, name, _, form) = sort_versions-sorts L law i in
        (
          j,
          rw (h, run, stamps) sorts,
          sorted-IsRebuilt created (time_in current) objs s i j
              (current_times_lem current created h) built st name form,
        )
