-- ===== src/Tests/ServingCases.antt =====
-- internal/server and cmd/s3reg/serve.go at concrete requests, with a router that takes the first route whose
-- text before a parameter begins the path.
use mathlib.Core.List.{Memᴰ}
use s3_registry.Prelude.{
  ◌≡◌, ◌≢◌, ◌⊎◌, refl, true, false, Option, none, some, List, [], ◌∷◌, if◌then◌else◌, Bool-cases,
  inl, inr, arith,
}
use s3_registry.Prelude.Int.{pos}
use s3_registry.Text.{Str, codes, ◌==◌, has_prefix, contains}
use s3_registry.Text.Unicode.{Unicode}
use s3_registry.Dict.{lookup, insert}
use s3_registry.Result.{ok}
use s3_registry.Semver.{sort_ascending}
use s3_registry.Index.{Index, sort_versions}
use s3_registry.BuildInfo.{defaults}
use s3_registry.Server.{fresh, fetch}
use s3_registry.Server.Auth.{Presents}
use s3_registry.Server.Cached.{IsGood}
use s3_registry.Server.Flights.{
  Read, Answered, State, initial, complete, reads, completes, hits, Reach, start, next, IsAnswer,
}
use s3_registry.Server.Flights.Logged.{Reach-IsAnswer}
use s3_registry.Server.Routes.{Endpoint, Route, Request, Mux, IsMux, literal}
use s3_registry.Server.Routes as Routes
use s3_registry.Server.Serving.{Config, Server, World, new, handle, answer, unauthorized}
use s3_registry.Server.Guarded.{is_data, handle-guarded}
use s3_registry.Server.Replies.{IsReply, handle-IsReply}
use s3_registry.Serve.{Env, serve_config, signaled, finish}
use s3_registry.Serve.Lifetime.{
  draining, Life, starts, answers, stops, code_of, is_draining, Life-IsReply,
}
use s3_registry.Tests.Numbers.{numbers, numbers-IsLawful}

abbrev ascii : Unicode
ascii = record { trim = λ s. s; fields = λ s. s ∷ []; to_lower = λ s. s }

abbrev first_match : List Route → Str → Option Endpoint
first_match [] path = none
first_match (r ∷ rs) path =
    let rest = first_match rs path in
    if has_prefix path (literal r.pattern) then some r.endpoint else rest

abbrev mux : Mux
mux = record { match_ = λ routes r. first_match routes r.path }

first_match-matched :
    (routes : List Route) (r : Request) (e : Endpoint)
    → first_match routes r.path ≡ some e
    → (route : Route) × Memᴰ route routes
      × (route.endpoint ≡ e)
      × ((has_prefix r.path (literal route.pattern) ≡ true)
          ⊎ (has_prefix r.raw_path (literal route.pattern) ≡ true))
first_match-matched [] r e h = absurd (cc)
first_match-matched (x ∷ xs) r e h = elim (Bool-cases (has_prefix r.path (literal x.pattern))) [
  | inl y ↦ (x, Memᴰ.head refl, ground (arith, y), inl y)
  | inr n ↦
      let (route, held, same, begins) = first_match-matched xs r e (ground (arith, n)) in
      (route, Memᴰ.tail held, same, begins)
]

mux-IsMux : IsMux mux
mux-IsMux = record { matched = first_match-matched }

abbrev cfg : Config
cfg = record {
  api_token = codes "key";
  presign_ttl = pos 5;
  cache_ttl = pos 60;
  health = record {
    liveness_deadline = pos 1;
    readiness_deadline = pos 1;
    status_deadline = pos 1;
    status_cache_ttl = pos 5;
    readiness_startup_grace = pos 3;
  };
}

abbrev filled : Index
filled = record {
  name = codes "tool";
  updated = 1;
  versions =
      record {
        version = codes "7";
        created = 5;
        artifacts = some (
            (codes "linux-amd64", record { key = codes "k"; sha256 = codes "aa"; size = pos 1 })
            ∷ []);
      }
      ∷ [];
}

abbrev world : World
world = record {
  vars = defaults;
  now = 100;
  began = 100;
  ended = 101;
  later = 101;
  answered = 102;
  get_index = λ tool. ok (filled, codes "e");
  presign_get = λ key ttl. ok key;
  list_tools = ok (codes "tool" ∷ []);
  head_bucket = none;
  probe_late = false;
  incomplete = false;
  tool = codes "tool";
  version = codes "5";
  range = codes "5";
  os = codes "linux";
  arch = codes "amd64";
}

abbrev request : Request
request = record {
  method = codes "GET";
  path = codes "/tools/tool/versions";
  raw_path = [];
  authorization = codes "Bearer key";
}

given : cfg.api_token ≢ []
given e = cc

handle-guarded_example :
    (is_data (handle numbers world ascii mux [] request (new cfg 9)).1 ≡ true
      → Presents ascii (codes "key") (codes "Bearer key"))
    × ((handle numbers world ascii mux [] request (new cfg 9)).1 ≡ unauthorized
        → (handle numbers world ascii mux [] request (new cfg 9)).0 ≡ new cfg 9)
unfolding new
handle-guarded_example =
    handle-guarded numbers world ascii mux mux-IsMux [] tt request (inl refl) (new cfg 9) given

new-IsGood : IsGood numbers (new cfg 9).entries
unfolding new lookup
new-IsGood k e h = absurd (cc)

handle-IsReply_example :
    IsReply numbers world
      (new cfg 9)
      ascii
      mux
      []
      request
      (handle numbers world ascii mux [] request (new cfg 9)).1
    × IsGood numbers (handle numbers world ascii mux [] request (new cfg 9)).0.entries
handle-IsReply_example =
    handle-IsReply numbers world (new cfg 9) ascii mux [] request numbers-IsLawful new-IsGood

-- a request, the signal, and a request while the server drains
abbrev environment : Env
environment = record {
  getenv = λ key. if key == codes "S3REG_API_TOKEN" then codes "key" else [];
  parse_duration = λ text. none;
}

abbrev started : Server
started = new (serve_config environment) 9

abbrev first_state : Server
first_state = (handle numbers world ascii mux [] request started).0

abbrev last_state : Server
last_state = (handle numbers world ascii mux [] request (finish signaled (ok tt) first_state).0).0

life : Life numbers ascii mux [] draining last_state
life = answers world request (stops (ok tt) (answers world request (starts environment 9)))

Life-IsReply_example :
    IsGood numbers last_state.entries
    × ((w : World) (r : Request)
        → IsReply numbers w last_state ascii mux [] r
            (handle numbers w ascii mux [] r last_state).1)
    × ((w : World)
        → (code_of (answer numbers w Routes.live last_state).1
            ≡ (if is_draining draining then 503 else 200))
          × (draining ≡ draining → code_of (answer numbers w Routes.ready last_state).1 ≡ 503))
Life-IsReply_example = Life-IsReply numbers ascii mux [] numbers-IsLawful life

-- one read of the store, its run, a request within the time of the entry, and one that shares the run
abbrev read : Read
read = record { tool = codes "tool"; upstream = ok (filled, codes "e") }

abbrev stored : State
stored = complete numbers (pos 60) read 100 (record initial { reads = read ∷ [] })

abbrev hit : Answered
hit = record { tool = codes "tool"; now = 120; result = ok filled; shared = false }

abbrev answered : State
answered = record stored { answers = hit ∷ [] }

found : fresh (pos 60) 120 (lookup (codes "tool") stored.entries) ≡ some filled
unfolding complete fresh fetch lookup ◌==◌ sort_versions sort_ascending insert contains
found = refl

reached : Reach numbers (pos 60) answered
unfolding complete
reached =
    next (next (next start (reads read)) (completes read 100 (Memᴰ.head refl)))
      (hits (codes "tool") 120 filled found)

Reach-IsAnswer_example : IsAnswer numbers (pos 60) answered.reads answered.runs hit
Reach-IsAnswer_example =
    Reach-IsAnswer numbers numbers-IsLawful (pos 60) reached hit (Memᴰ.head refl)
