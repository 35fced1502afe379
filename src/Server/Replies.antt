-- ===== src/Server/Replies.antt =====
-- What the server of internal/server answers, from the router to the index that it reads, and what it
-- keeps in its cache.
use s3_registry.Prelude.{
  ℕ, ◌∷◌, map, ◌≡◌, refl, subst, ◌⊎◌, Bool, true, false, ◌||◌, Option, none, some, List, [], inl,
  inr, Bool-cases, if◌then◌else◌,
}
use s3_registry.Text.{Str, ◌==◌}
use s3_registry.Text.Unicode.{Unicode}
use s3_registry.Result.{Error, Result, ok, err, not_found}
use s3_registry.Semver.{Library, IsLawful, resolve}
use s3_registry.Semver.Highest.{resolve-IsResolution}
use s3_registry.Semver.Walk.{IsResolution}
use s3_registry.Index.{Version, Index, version_strings, releases}
use s3_registry.Index as Index
use s3_registry.Server as Api
use s3_registry.Health.{ReadyResponse, StatusResponse}
use s3_registry.Index.View.{names, IsDistinct}
use s3_registry.Index.Sorted.{IsOrdered}
use s3_registry.Server.{
  Answer, success, error, Versions, Download, map_store_err, is_not_found, passes, list_versions,
  resolve_range, get_artifact,
}
use s3_registry.Server.Cached.{IsGood, IsServed, cache_get_lem}
use s3_registry.Server.Answers.{IsServedFrom, get_artifact_lem}
use s3_registry.Server.Routes.{Endpoint, Route, Request, Mux, build_router}
use s3_registry.Server.Routes as Routes
use s3_registry.Server.Serving.{
  unauthorized, no_route, moved, live, ready, status, tools, described, Server, World, Reply,
  versions, resolved, download, cached_index, answer, answer_status, answer_artifact, answer_at,
  handle,
}

module _ (L : Library) where
  -- The status for an index that cannot be read
  abbrev pub status_for : Error → ℕ
  status_for not_found = 404
  status_for e = 500

  -- A version and its time, as the answer names them
  abbrev pub AreReleases : List Version → List Api.Release → Type 0
  AreReleases [] rs = rs ≡ []
  AreReleases (v ∷ vs) [] = ⊥
  AreReleases (v ∷ vs) (r ∷ rs) =
      (r.version ≡ v.version) × (r.created_at ≡ v.created) × AreReleases vs rs

  -- The versions, each with its time, of an index that is ordered and has no duplicates; or the status
  -- for the error.
  abbrev pub IsVersionsOf : Result Index → Answer Versions → Type 0
  IsVersionsOf (ok idx) a =
      ((out : Versions) × (a ≡ success out)
        × (out.versions ≡ names idx.versions)
        × AreReleases idx.versions out.releases)
      × IsOrdered L (names idx.versions)
      × IsDistinct idx.versions
  IsVersionsOf (err e) a = a ≡ error (status_for e)

  -- The highest satisfying version of the index; 422 if there is none.
  abbrev pub IsResolvedIn : Str → Result Index → Answer Str → Type 0
  IsResolvedIn range (ok idx) (success v) = IsResolution L range (names idx.versions) (ok v)
  IsResolvedIn range (ok idx) (error c) =
      (c ≡ 422) × ((e : Error) × IsResolution L range (names idx.versions) (err e))
  IsResolvedIn range (err e) a = a ≡ error (status_for e)

  abbrev pub IsDownloadOf : World → (Str → Result Str) → Result Index → Answer Download → Type 0
  IsDownloadOf w presign (ok idx) a = IsServedFrom L w.version w.os w.arch presign idx a
  IsDownloadOf w presign (err e) a =
      ((w.os == [] || w.arch == [] ≡ true) × (a ≡ error 422))
      ⊎ ((w.os == [] || w.arch == [] ≡ false) × (a ≡ error (status_for e)))

  module _ (w : World) (s : Server) where
    -- What the cache may give for the tool of the request.
    abbrev pub Served : Result Index → Type 0
    Served = IsServed L s.cfg.cache_ttl w.tool w.now (w.get_index w.tool) s.entries

    -- The tools that the store lists, or 500.
    abbrev pub AreTools : Result (List Str) → Answer (List Str) → Type 0
    AreTools (ok ts) a = a ≡ success ts
    AreTools (err e) a = a ≡ error 500

    -- Each endpoint has its own reply. The three operations on an index answer about one that the
    -- cache may give.
    abbrev pub IsReplyTo : Option Endpoint → Reply → Type 0
    IsReplyTo none x = x ≡ no_route
    IsReplyTo (some Routes.live) x = (a : ℕ × Str) × (x ≡ live a)
    IsReplyTo (some Routes.ready) x = (a : ℕ × ReadyResponse) × (x ≡ ready a)
    IsReplyTo (some Routes.status) x = (a : ℕ × StatusResponse) × (x ≡ status a)
    IsReplyTo (some (Routes.redirect to)) x = x ≡ moved to
    IsReplyTo (some (Routes.described what)) x = x ≡ described what
    IsReplyTo (some Routes.list_tools) x =
        (a : Answer (List Str)) × (x ≡ tools a) × AreTools w.list_tools a
    IsReplyTo (some Routes.list_versions) x =
        (a : Answer Versions) × (x ≡ versions a)
        × ((i : Result Index) × Served i × IsVersionsOf i a)
    IsReplyTo (some Routes.resolve_version) x =
        (a : Answer Str) × (x ≡ resolved a)
        × ((i : Result Index) × Served i × IsResolvedIn w.range i a)
    IsReplyTo (some Routes.get_artifact) x =
        (a : Answer Download) × (x ≡ download a)
        × ((i : Result Index) × Served i
            × IsDownloadOf w (λ key. w.presign_get key s.cfg.presign_ttl) i a)

    -- A request that does not pass the bearer check is refused, and any other is answered by the
    -- endpoint that the router leads it to.
    abbrev pub IsReply : Unicode → Mux → List Route → Request → Reply → Type 0
    IsReply u m own r x =
        ((passes u s.cfg.api_token r.path r.authorization ≡ false) × (x ≡ unauthorized))
        ⊎ ((passes u s.cfg.api_token r.path r.authorization ≡ true)
            × IsReplyTo (m.match_ (build_router own) r) x)

    abbrev Kept : Option Endpoint → Server × Reply → Type 0
    Kept e x = IsReplyTo e x.1 × IsGood L x.0.entries

    store_err : {A : Type 0} (e : Error) → map_store_err {A = A} e ≡ error (status_for e)
    unfolding map_store_err
    store_err not_found = refl
    store_err e = refl

    all_releases :
        (vs : List Version)
        → AreReleases vs (
            map
              (λ (r : Index.Release). record { version = r.version; created_at = r.created })
              (map (λ (v : Version). record { version = v.version; created = v.created }) vs))
    all_releases [] = refl
    all_releases (v ∷ vs) = (refl, refl, all_releases vs)

    module _ (law : IsLawful L) (good : IsGood L s.entries) where
      served : Served (cached_index L w w.tool s).1
      unfolding cached_index
      served =
          (cache_get_lem L law s.cfg.cache_ttl w.tool w.now (w.get_index w.tool) w.later s.entries
            good).0

      kept : IsGood L (cached_index L w w.tool s).0.entries
      unfolding cached_index
      kept =
          (cache_get_lem L law s.cfg.cache_ttl w.tool w.now (w.get_index w.tool) w.later s.entries
            good).1

      -- What is served is ordered and has no duplicates.
      Served-IsOrdered :
          (idx : Index)
          → Served (ok idx)
          → IsOrdered L (names idx.versions) × IsDistinct idx.versions
      Served-IsOrdered idx (inl (e, l, same, y)) =
          subst (λ (i : Index). IsOrdered L (names i.versions) × IsDistinct i.versions) same
            (good w.tool e l)
      Served-IsOrdered idx (inr (raw, etag, up, form)) = (form.ordered, form.distinct)

      listed : (x : Result Index) → Served x → IsVersionsOf x (list_versions L x)
      unfolding list_versions version_strings releases
      listed (ok idx) h =
          let (o, d) = Served-IsOrdered idx h in ((_, refl, refl, all_releases idx.versions), o, d)
      listed (err e) h = store_err e

      tools_listed : (x : Result (List Str)) → AreTools x (Api.list_tools x)
      unfolding Api.list_tools
      tools_listed (ok ts) = refl
      tools_listed (err e) = refl

      resolution : (range : Str) (x : Result Index) → IsResolvedIn range x (resolve_range L range x)
      unfolding resolve_range version_strings
      resolution range (err e) = store_err e
      resolution range (ok idx) =
          resolved_as (resolve L (version_strings idx) range) refl
            (resolve-IsResolution L law range (version_strings idx))
        where
          resolved_as :
              (r : Result Str)
              → resolve L (version_strings idx) range ≡ r
              → IsResolution L range (version_strings idx) r
              → IsResolvedIn range (ok idx) (resolve_range L range (ok idx))
          resolved_as (ok v) e h = rw (e, resolve_range) h
          resolved_as (err x) e h = rw (e, resolve_range) (refl, (x, h))

      downloaded :
          (presign : Str → Result Str) (x : Result Index)
          → IsDownloadOf w presign x (get_artifact L w.version w.os w.arch presign x)
      unfolding get_artifact
      downloaded presign (ok idx) = get_artifact_lem L w.version w.os w.arch presign idx law
      downloaded presign (err e) = elim (Bool-cases (w.os == [] || w.arch == [])) [
        | inl y ↦ inl (y, rw y refl)
        | inr n ↦ inr (n, rw n (store_err e))
      ]

      chosen : (b : Bool) (t : Server) → IsGood L t.entries → IsGood L (if b then s else t).entries
      chosen true t h = good
      chosen false t h = h

      answer-Kept : (e : Endpoint) → Kept (some e) (answer L w e s)
      unfolding answer answer_status answer_artifact
      answer-Kept Routes.live = ((_, refl), good)
      answer-Kept Routes.ready = ((_, refl), good)
      answer-Kept Routes.status = ((_, refl), good)
      answer-Kept (Routes.redirect to) = (refl, good)
      answer-Kept Routes.list_tools = ((_, refl, tools_listed w.list_tools), good)
      answer-Kept Routes.list_versions = ((_, refl, (_, served, listed _ served)), kept)
      answer-Kept Routes.resolve_version = ((_, refl, (_, served, resolution w.range _)), kept)
      answer-Kept Routes.get_artifact =
          ((_, refl, (_, served, downloaded _ _)), chosen (w.os == [] || w.arch == []) _ kept)
      answer-Kept (Routes.described what) = (refl, good)

  -- From a cache whose indexes are ordered and without duplicates, a request leaves such a cache. It is
  -- refused if it does not pass the bearer check; else the endpoint that the router leads it to answers
  -- it with that endpoint's own reply. The operations on an index answer about the index of the tool
  -- that the cache or the store holds: its versions, each with its time, the highest one that satisfies
  -- the range, or the artifact under that one at its presigned URL, with 404, 422 or 500 for what is
  -- missing or has failed.
  pub handle-IsReply :
      (w : World) (s : Server) (u : Unicode) (m : Mux) (own : List Route) (r : Request)
      → IsLawful L
      → IsGood L s.entries
      → IsReply w s u m own r (handle L w u m own r s).1
        × IsGood L (handle L w u m own r s).0.entries
  unfolding handle
  handle-IsReply w s u m own r law good =
      elim (Bool-cases (passes u s.cfg.api_token r.path r.authorization)) [
        | inl y ↦ (
          inr (y, rw (y, handle) (routed (m.match_ (build_router own) r)).0),
          rw (y, handle) (routed (m.match_ (build_router own) r)).1,
        )
        | inr n ↦ (inl (n, rw (n, handle) refl), rw (n, handle) good)
      ]
    where
      routed : (o : Option Endpoint) → Kept w s o (answer_at L w o s)
      routed none = (refl, good)
      routed (some e) = answer-Kept w s law good e
