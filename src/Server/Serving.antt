-- ===== src/Server/Serving.antt =====
-- internal/server/server.go: New, and a request from the bearer check through the router to its handler.
-- What chi, huma and the store do in a request is its `World`.
use s3_registry.Prelude.{ℕ, Bool, true, ◌||◌, Option, none, some, List, [], ◌∷◌, map, if◌then◌else◌}
use s3_registry.Text.{Str, codes, ◌==◌}
use s3_registry.Text.Unicode.{Unicode}
use s3_registry.Dict.{Dict}
use s3_registry.Instant.{Instant, Duration}
use s3_registry.Result.{Result}
use s3_registry.Semver.{Library}
use s3_registry.Index.{Index}
use s3_registry.BuildInfo.{Vars}
use s3_registry.Health as Health
use s3_registry.Health.{Handler, Dependency, ReadyResponse, StatusResponse, dep_result, summarize}
use s3_registry.Server.{
  Answer, CacheEntry, Versions, Download, passes, cache_get, list_versions, resolve_range,
  get_artifact,
}
use s3_registry.Server as Api
use s3_registry.Server.Routes.{Endpoint, Route, Request, Mux, build_router}
use s3_registry.Server.Routes as Routes

pub record Config : Type 0 where
  pub api_token : Str
  pub presign_ttl : Duration
  pub cache_ttl : Duration
  pub health : Health.Config

-- Server, less its store and its router, which do not change.
pub record Server : Type 0 where
  pub cfg : Config
  pub entries : Dict CacheEntry
  pub health : Handler

-- New
unfoldable pub new : Config → Instant → Server
unfolding Health.new
new cfg now = record { cfg = cfg; entries = []; health = Health.new cfg.health now }

-- What a request meets: the linker's variables, readings of the clock, the store's calls, whether the deadline of the status
-- probes has passed, and huma's decoding of the request.
pub record World : Type 0 where
  pub vars : Vars
  pub now : Instant
  pub began : Instant
  pub ended : Instant
  pub later : Instant
  pub answered : Instant
  pub get_index : Str → Result (Index × Str)
  pub presign_get : Str → Duration → Result Str
  pub list_tools : Result (List Str)
  pub head_bucket : Option Str
  pub probe_late : Bool
  pub incomplete : Bool
  pub tool : Str
  pub version : Str
  pub range : Str
  pub os : Str
  pub arch : Str

pub data Reply : Type 0 where
  unauthorized : Reply
  no_route : Reply
  moved : Str → Reply
  live : ℕ × Str → Reply
  ready : ℕ × ReadyResponse → Reply
  status : ℕ × StatusResponse → Reply
  tools : Answer (List Str) → Reply
  versions : Answer Versions → Reply
  resolved : Answer Str → Reply
  download : Answer Download → Reply
  described : Str → Reply

-- the dependencies that New declares, with what the probe returns
abbrev pub deps : Option Str → List Dependency
deps head_bucket =
    record { name = codes "s3.bucket"; type = codes "s3"; required = true; probe = head_bucket }
    ∷ []

module _ (L : Library) (w : World) where
  -- indexCache.Get in the server
  unfoldable pub cached_index : Str → Server → Server × Result Index
  unfolding cache_get
  cached_index tool s =
      let (entries, idx) =
        cache_get L s.cfg.cache_ttl tool w.now (w.get_index tool) w.later s.entries in
      (record s { entries = entries }, idx)

  -- Status in the server
  unfoldable pub answer_status : Server → Server × Reply
  unfolding Health.status dep_result summarize
  answer_status s =
      let results = map (λ d. dep_result d w.probe_late w.began w.ended) (deps w.head_bucket) in
      let probed = summarize w.vars s.health.start w.now results w.incomplete in
      let (cached, answer) = Health.status s.health w.now probed w.later w.answered in
      (record s { health = record s.health { cached = cached } }, status answer)

  -- getArtifact in the server: the check of the parameters comes before the cache.
  unfoldable pub answer_artifact : Server → Server × Reply
  unfolding cached_index get_artifact
  answer_artifact s =
      let (s', idx) = cached_index w.tool s in
      let presign : Str → Result Str = λ key. w.presign_get key s.cfg.presign_ttl in
      (
        if w.os == [] || w.arch == [] then s else s',
        download (get_artifact L w.version w.os w.arch presign idx),
      )

  -- The handlers
  unfoldable pub answer : Endpoint → Server → Server × Reply
  unfolding answer_status answer_artifact list_versions resolve_range Api.list_tools Health.live
      Health.ready
  answer Routes.live s = (s, live (Health.live s.health.draining))
  answer Routes.ready s = (
    s,
    ready (Health.ready s.health.cfg s.health.start s.health.draining (deps w.head_bucket) w.now),
  )
  answer Routes.status s = answer_status s
  answer (Routes.redirect to) s = (s, moved to)
  answer Routes.list_tools s = (s, tools (Api.list_tools w.list_tools))
  answer Routes.list_versions s =
      let (s', idx) = cached_index w.tool s in (s', versions (list_versions L idx))
  answer Routes.resolve_version s =
      let (s', idx) = cached_index w.tool s in (s', resolved (resolve_range L w.range idx))
  answer Routes.get_artifact s = answer_artifact s
  answer (Routes.described what) s = (s, described what)

  abbrev pub answer_at : Option Endpoint → Server → Server × Reply
  answer_at none s = (s, no_route)
  answer_at (some e) s = answer e s

  -- The middlewares and the router; `own` are the routes of huma.
  unfoldable pub handle : Unicode → Mux → List Route → Request → Server → Server × Reply
  unfolding passes build_router answer
  handle u m own r s =
      if passes u s.cfg.api_token r.path r.authorization
      then answer_at (m.match_ (build_router own) r) s
      else (s, unauthorized)
