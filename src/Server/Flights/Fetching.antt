-- ===== src/Server/Flights/Fetching.antt =====
-- What a run of the function that indexCache.Get of internal/server hands to singleflight stores and returns.
use s3_registry.Prelude.{
  some-injective, ◌≡◌, refl, sym, subst, ap, ◌∙◌, some, ◌⊎◌, inl, inr, Bool-cases,
}
use s3_registry.Text.{Str, ◌==◌, eq_iff}
use s3_registry.Dict.{Dict, lookup, insert, lookup-insert}
use s3_registry.Instant.{Instant}
use s3_registry.Result.{Result, ok, err}
use s3_registry.Semver.{Library, IsLawful}
use s3_registry.Index.{Index, sort_versions}
use s3_registry.Index.Sorted.{sort_versions-sorts}
use s3_registry.Server.{CacheEntry, fetch}
use s3_registry.Server.Flights.{IsReadAs}

module _ (L : Library) (law : IsLawful L) where
  pub fetch-IsReadAs :
      (tool : Str) (upstream : Result (Index × Str)) (stored : Instant) (m : Dict CacheEntry)
      → IsReadAs L upstream (fetch L tool upstream stored m).1
  unfolding fetch
  fetch-IsReadAs tool (err e) stored m = refl
  fetch-IsReadAs tool (ok (raw, etag)) stored m =
      let (j, run, named, _, form) = sort_versions-sorts L law raw in
      rw (run, fetch) (raw, etag, refl, named, form)

  -- A run changes the entry of its tool at most, and then to what it returns.
  pub fetch-lookup :
      (tool : Str) (upstream : Result (Index × Str)) (stored : Instant) (m : Dict CacheEntry)
      (k : Str) (e : CacheEntry)
      → lookup k (fetch L tool upstream stored m).0 ≡ some e
      → (lookup k m ≡ some e)
        ⊎ ((tool ≡ k) × (stored ≡ e.fetched_at) × ((fetch L tool upstream stored m).1 ≡ ok e.idx))
  unfolding fetch
  fetch-lookup tool (err x) stored m k e h = inl h
  fetch-lookup tool (ok (raw, etag)) stored m k e h =
      let (j, run, _, _, _) = sort_versions-sorts L law raw in
      changed j run (
        subst (λ (x : Dict CacheEntry × Result Index). lookup k x.0 ≡ some e) (fetch_ok raw j run)
          h)
    where
      storing : Index → Dict CacheEntry
      storing j = insert tool (record { idx = j; fetched_at = stored }) m

      fetch_ok :
          (raw : Index) (j : Index)
          → sort_versions L raw ≡ ok j
          → fetch L tool (ok (raw, etag)) stored m ≡ (storing j, ok j)
      fetch_ok raw j run = rw (run, fetch) refl

      changed :
          (j : Index)
          → sort_versions L raw ≡ ok j
          → lookup k (storing j) ≡ some e
          → (lookup k m ≡ some e)
            ⊎ ((tool ≡ k)
                × (stored ≡ e.fetched_at)
                × ((fetch L tool (ok (raw, etag)) stored m).1 ≡ ok e.idx))
      changed j run h = elim (Bool-cases (tool == k)) [
        | inl y ↦
            let same : record { idx = j; fetched_at = stored } ≡ e = some-injective _ e (
              sym (lookup-insert tool k (record { idx = j; fetched_at = stored }) m ∙ rw y refl)
              ∙ h) in
            inr (
              (eq_iff tool k).0 y,
              ap (λ (x : CacheEntry). x.fetched_at) same,
              ap (λ (x : Dict CacheEntry × Result Index). x.1) (fetch_ok raw j run)
                  ∙ ap (λ (x : CacheEntry). ok x.idx) same,
            )
        | inr n ↦
            inl (
              sym (lookup-insert tool k (record { idx = j; fetched_at = stored }) m ∙ rw n refl)
              ∙ h)
      ]
