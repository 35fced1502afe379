-- ===== src/Index/Sorted.antt =====
-- SortVersions of internal/index and what the sorted index holds.
use mathlib.Core.Path.{ap₂}
use mathlib.Core.List.{map-append}
use s3_registry.Prelude.{
  ◌≤◌, ◌≡◌, refl, ap, sym, ◌∙◌, true, false, not, ◌&&◌, none, List, [], ◌∷◌, ◌++◌, arith, All,
  All-append, All-map, and_true,
}
use s3_registry.Text.{
  Str, count, contains, contains-eq-count, contains-append, count-append, contains-All,
}
use s3_registry.Dict.{lookup}
use s3_registry.Result.{ok}
use s3_registry.Semver.{Library, IsLawful, sort_ascending}
use s3_registry.Semver.Order.{parseable, Le, IsAscending}
use s3_registry.Semver.Sorting.{sort_ascending-sorts}
use s3_registry.Semver.Highest.{contains-sort_ascending}
use s3_registry.Index.{Version, Index, Merge, merge_all, not_in, sort_versions}
use s3_registry.Index.View.{
  is_some, names, version_at, version_at-append, artifact_in, artifact_at, created_in, IsDistinct,
}
use s3_registry.Index.Merging.{
  or_else-none, fold_version, lookup-merge_all, add_new, seen-merge_all, contains-add_new,
  count-add_new,
}
use s3_registry.Index.Folding.{
  latest_artifact, earliest_created, artifact_in-fold_version, created_in-fold_version,
  zero_earlier, is_some-fold_version, version-fold_version,
}
use s3_registry.Index.Collecting.{KeyedByVersion, Collected, collect_all, count-not_in}

module _ (L : Library) where
  -- A version stands at or below every later one that parses; so what does not parse stands last.
  abbrev pub IsOrdered : List Str → Type 0
  IsOrdered [] = Unit
  IsOrdered (k ∷ ks) = All (λ w. parseable L w ≡ true → Le L k w) ks × IsOrdered ks

  -- What SortVersions makes of the entries `vs`: ordered versions without duplicates, the same ones,
  -- each with the last artifact of every os-arch and the earliest known time.
  pub record IsSortedForm (vs out : List Version) : Type 0 where
    pub ordered : IsOrdered (names out)
    pub distinct : IsDistinct out
    pub same : (k : Str) → contains k (names out) ≡ contains k (names vs)
    pub artifacts : (k oa : Str) → artifact_at k oa out ≡ latest_artifact k oa vs
    pub created : (k : Str) → created_in (version_at k out) ≡ earliest_created k vs

  IsAscending-IsOrdered : (ks : List Str) → IsAscending L ks → IsOrdered ks
  IsAscending-IsOrdered [] a = tt
  IsAscending-IsOrdered (k ∷ ks) a =
      (All-map (λ w. Le L k w) _ (λ w h _. h) ks a.0, IsAscending-IsOrdered ks a.1)

  IsOrdered-append :
      (xs ys : List Str) → IsOrdered xs → All (λ w. parseable L w ≡ false) ys → IsOrdered (xs ++ ys)
  IsOrdered-append [] [] o h = tt
  IsOrdered-append [] (y ∷ ys) o h =
      (All-map _ _ (λ w n p. cc) ys h.1, IsOrdered-append [] ys tt h.1)
  IsOrdered-append (x ∷ xs) ys o h =
      (All-append _ xs ys o.0 (All-map _ _ (λ w n p. cc) ys h), IsOrdered-append xs ys o.1 h)

  module _ (law : IsLawful L) (vs : List Version) where
    abbrev merge : Merge
    merge = merge_all vs (record { merged = []; seen = [] })

    -- the variables of the second part
    abbrev sorted : List Str
    sorted = sort_ascending L merge.seen

    abbrev rest : List Str
    rest = not_in sorted merge.seen

    seen_lem : merge.seen ≡ add_new [] (names vs)
    seen_lem = seen-merge_all vs _ (λ k. unfold contains lookup in refl)

    lookup_lem : (k : Str) → lookup k merge.merged ≡ fold_version k none vs
    lookup_lem k = lookup-merge_all k vs _ ∙ ap (λ o. fold_version k o vs) (unfold lookup in refl)

    is_some-lookup : (k : Str) → is_some (lookup k merge.merged) ≡ contains k (names vs)
    is_some-lookup k = ap is_some (lookup_lem k) ∙ is_some-fold_version k none vs

    contains-seen : (k : Str) → contains k merge.seen ≡ contains k (names vs)
    contains-seen k =
        ap (contains k) seen_lem ∙ contains-add_new k [] (names vs) ∙ (unfold contains in refl)

    count-seen : (k : Str) → count k merge.seen ≤ 1
    count-seen k = rw seen_lem (count-add_new k [] (names vs) (λ j. unfold count in omega arith))

    keyed : KeyedByVersion merge.merged
    keyed k v e = version-fold_version k none vs (λ m h. cc) v (sym (lookup_lem k) ∙ e)

    contains-sorted : (k : Str) → contains k sorted ≡ (parseable L k && contains k (names vs))
    contains-sorted k = rw (contains-sort_ascending L law k merge.seen, contains-seen k) refl

    contains-rest : (k : Str) → contains k rest ≡ (not (parseable L k) && contains k (names vs))
    contains-rest k =
        rw (contains-eq-count k rest, count-not_in k sorted merge.seen)
          (ground (arith, contains-sorted k, contains-seen k, contains-eq-count k merge.seen))

    present :
        (ks : List Str)
        → ((k : Str) → contains k ks ≡ true → contains k (names vs) ≡ true)
        → All (λ k. is_some (lookup k merge.merged) ≡ true) ks
    present ks h = contains-All _ ks (λ k i. is_some-lookup k ∙ h k i)

    front : Collected merge.merged sorted
    front =
        collect_all merge.merged sorted keyed
          (present sorted (λ k i. (and_true _ _ (sym (contains-sorted k) ∙ i)).1))

    back : Collected merge.merged rest
    back =
        collect_all merge.merged rest keyed
          (present rest (λ k i. (and_true _ _ (sym (contains-rest k) ∙ i)).1))

    result : List Version
    result = front.out ++ back.out

    names-result : names result ≡ sorted ++ rest
    unfolding result
    names-result =
        map-append (λ (v : Version). v.version) front.out back.out
        ∙ ap₂ ◌++◌ front.names_out back.names_out

    version_at-result : (k : Str) → version_at k result ≡ lookup k merge.merged
    unfolding result
    version_at-result k =
        version_at-append k front.out back.out
        ∙ ground (
          arith,
          front.found k,
          back.found k,
          contains-sorted k,
          contains-rest k,
          is_some-lookup k,
        )

    count-result : (k : Str) → count k (names result) ≤ 1
    count-result k =
        rw
          (
            names-result,
            count-append k sorted rest,
            count-not_in k sorted merge.seen,
            (sort_ascending-sorts L law merge.seen).1 k,
          )
          (ground (
            arith,
            count-seen k,
            contains-eq-count k sorted,
            (sort_ascending-sorts L law merge.seen).1 k,
          ))

    contains-result : (k : Str) → contains k (names result) ≡ contains k (names vs)
    contains-result k =
        rw (names-result, contains-append k sorted rest)
          (ground (arith, contains-sorted k, contains-rest k))

    result-IsOrdered : IsOrdered (names result)
    result-IsOrdered = rw names-result (
        IsOrdered-append sorted rest
          (IsAscending-IsOrdered sorted (sort_ascending-sorts L law merge.seen).0)
          (contains-All _ rest (λ k i. ground (arith, contains-rest k))))

    result-IsSortedForm : IsSortedForm vs result
    result-IsSortedForm = record {
      ordered = result-IsOrdered;
      distinct = count-result;
      same = contains-result;
      artifacts = λ k oa.
          ap (artifact_in oa) (version_at-result k ∙ lookup_lem k)
          ∙ artifact_in-fold_version k oa none vs
          ∙ or_else-none _;
      created = λ k.
          ap created_in (version_at-result k ∙ lookup_lem k)
          ∙ created_in-fold_version k none vs
          ∙ sym (zero_earlier _);
    }

  -- SortVersions never panics. The sorted index keeps its name and stamp and the versions that it
  -- had, now each once, ascending by precedence with unparseable ones last; a version keeps the last
  -- artifact that its entries had for each os-arch, and the earliest known time of publication.
  pub sort_versions-sorts :
      IsLawful L
      → (i : Index)
      → (j : Index) × (sort_versions L i ≡ ok j)
        × (j.name ≡ i.name)
        × (j.updated ≡ i.updated)
        × IsSortedForm i.versions j.versions
  unfolding sort_versions
  sort_versions-sorts law i = (
    record i { versions = result law i.versions },
    rw ((front law i.versions).done, (back law i.versions).done) (unfold result in refl),
    refl,
    refl,
    result-IsSortedForm law i.versions,
  )
