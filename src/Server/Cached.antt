-- ===== src/Server/Cached.antt =====
-- indexCache.Get: what it returns and what it stores.
use s3_registry.Prelude.{
  ◌≡◌, refl, sym, subst, ◌∙◌, true, false, none, some, arith, ◌⊎◌, inl, inr, Option-cases,
  Bool-cases,
}
use s3_registry.Prelude.Int.{ltb_ℤ}
use s3_registry.Text.{Str, ◌==◌}
use s3_registry.Dict.{Dict, lookup, insert, lookup-insert}
use s3_registry.Instant.{Instant, Duration, sub}
use s3_registry.Result.{Result, ok, err}
use s3_registry.Semver.{Library, IsLawful}
use s3_registry.Index.{Index, sort_versions}
use s3_registry.Index.View.{names, IsDistinct}
use s3_registry.Index.Sorted.{IsOrdered, IsSortedForm, sort_versions-sorts}
use s3_registry.Server.{CacheEntry, fresh, fetch, cache_get}

-- Every cached index is ordered and without duplicates.
abbrev pub IsGood : Library → Dict CacheEntry → Type 0
IsGood L entries =
    (tool : Str) (e : CacheEntry)
    → lookup tool entries ≡ some e
    → IsOrdered L (names e.idx.versions) × IsDistinct e.idx.versions

-- What a request for a tool may get: an entry within its time, or the sorted form of what the store
-- now holds; an error is the store's.
abbrev pub IsServed :
    Library
    → Duration
    → Str
    → Instant
    → Result (Index × Str)
    → Dict CacheEntry
    → Result Index
    → Type 0
IsServed L ttl tool now upstream entries (ok idx) =
    ((e : CacheEntry) × (lookup tool entries ≡ some e)
      × (e.idx ≡ idx)
      × (ltb_ℤ (sub now e.fetched_at) ttl ≡ true))
    ⊎ ((raw : Index) × (etag : Str) × (upstream ≡ ok (raw, etag))
        × IsSortedForm L raw.versions idx.versions)
IsServed L ttl tool now upstream entries (err e) = upstream ≡ err e

module _ (L : Library) (law : IsLawful L) (ttl : Duration) (tool : Str) (now : Instant)
    (upstream : Result (Index × Str)) (stored : Instant) (entries : Dict CacheEntry) where
  -- The three parts of the promise, for an outcome.
  abbrev Kept : Dict CacheEntry × Result Index → Type 0
  Kept x =
      IsServed L ttl tool now upstream entries x.1
      × IsGood L x.0
      × ((j : Str) → tool == j ≡ false → lookup j x.0 ≡ lookup j entries)

  hit :
      (e : CacheEntry)
      → lookup tool entries ≡ some e
      → ltb_ℤ (sub now e.fetched_at) ttl ≡ true
      → IsGood L entries
      → Kept (cache_get L ttl tool now upstream stored entries)
  unfolding cache_get
  hit e l y good = subst Kept (sym run) (inl (e, l, refl, y), good, λ j _. refl)
    where
      run : cache_get L ttl tool now upstream stored entries ≡ (entries, ok e.idx)
      run = ground (arith, l, y)

  -- The cache with an index stored for the tool.
  abbrev storing : Index → Dict CacheEntry
  storing j = insert tool (record { idx = j; fetched_at = stored }) entries

  stored_here :
      (j : Index) (k : Str)
      → tool == k ≡ true
      → lookup k (storing j) ≡ some (record { idx = j; fetched_at = stored })
  stored_here j k y =
      lookup-insert tool k (record { idx = j; fetched_at = stored }) entries ∙ rw y refl

  stored_elsewhere :
      (j : Index) (k : Str) → tool == k ≡ false → lookup k (storing j) ≡ lookup k entries
  stored_elsewhere j k n =
      lookup-insert tool k (record { idx = j; fetched_at = stored }) entries ∙ rw n refl

  some_eq : (x y : CacheEntry) → some x ≡ some y → x ≡ y
  some_eq x y h = ground arith

  stored_IsGood :
      (j : Index)
      → IsOrdered L (names j.versions)
      → IsDistinct j.versions
      → IsGood L entries
      → IsGood L (storing j)
  stored_IsGood j o d good k e h = elim (Bool-cases (tool == k)) [
    | inl y ↦
        subst (λ (x : CacheEntry). IsOrdered L (names x.idx.versions) × IsDistinct x.idx.versions)
          (some_eq (record { idx = j; fetched_at = stored }) e (sym (stored_here j k y) ∙ h)) (o, d)
    | inr n ↦ good k e (sym (stored_elsewhere j k n) ∙ h)
  ]

  fetch_ok :
      (raw : Index) (etag : Str) (j : Index)
      → sort_versions L raw ≡ ok j
      → fetch L tool (ok (raw, etag)) stored entries ≡ (storing j, ok j)
  unfolding fetch
  fetch_ok raw etag j run = rw (run, fetch) refl

  fetched :
      (u : Result (Index × Str))
      → upstream ≡ u
      → IsGood L entries
      → Kept (fetch L tool u stored entries)
  unfolding fetch
  fetched (err x) e good = (e, good, λ j _. refl)
  fetched (ok (raw, etag)) e good =
      let (j, run, _, _, form) = sort_versions-sorts L law raw in
      subst Kept (sym (fetch_ok raw etag j run)) (
        inr (raw, etag, e, form),
        stored_IsGood j form.ordered form.distinct good,
        stored_elsewhere j,
      )

  miss :
      fresh ttl now (lookup tool entries) ≡ none
      → IsGood L entries
      → Kept (cache_get L ttl tool now upstream stored entries)
  unfolding cache_get
  miss f good = subst Kept (sym run) (fetched upstream refl good)
    where
      run : cache_get L ttl tool now upstream stored entries ≡ fetch L tool upstream stored entries
      run = rw (f, cache_get) refl

  -- A request within the time of its entry is served from it, whatever the store holds; any other
  -- gets the sorted form of what the store returns, or the store's error, and never a panic. The
  -- cached indexes stay ordered and without duplicates, and entries of other tools stay.
  pub cache_get_lem :
      IsGood L entries
      → IsServed L ttl tool now upstream entries
          (cache_get L ttl tool now upstream stored entries).1
        × IsGood L (cache_get L ttl tool now upstream stored entries).0
        × ((j : Str)
            → tool == j ≡ false
            → lookup j (cache_get L ttl tool now upstream stored entries).0 ≡ lookup j entries)
  unfolding fresh
  cache_get_lem good = elim (Option-cases (lookup tool entries)) [
    | inl l ↦ miss (ground (arith, l)) good
    | inr (e, l) ↦ elim (Bool-cases (ltb_ℤ (sub now e.fetched_at) ttl)) [
      | inl y ↦ hit e l y good
      | inr n ↦ miss (ground (arith, l, n)) good
    ]
  ]
