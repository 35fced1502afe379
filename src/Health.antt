-- ===== src/Health.antt =====
-- internal/health/health.go: liveness, readiness and status. Each probe's outcome and the deadlines
-- are inputs, and so are the readings of the clock; HTTP answers are a code and a body.
pub mod Readiness
pub mod Summary
pub mod Probing
pub mod Requests
use s3_registry.Prelude.{
  ℕ, suc, ◌+◌, Bool, true, false, not, ◌&&◌, ◌||◌, Option, none, some, List, [], ◌∷◌, ◌++◌, map,
  if◌then◌else◌,
}
use s3_registry.Prelude.Int.{ℤ, pos, ltb_ℤ}
use s3_registry.Text.{Str, codes, ◌==◌}
use s3_registry.Instant.{Instant, Duration, sub, milliseconds}
use s3_registry.BuildInfo.{Vars, Info, get}

pub record Config : Type 0 where
  pub liveness_deadline : Duration
  pub readiness_deadline : Duration
  pub status_deadline : Duration
  pub status_cache_ttl : Duration
  pub readiness_startup_grace : Duration

-- What a probe returned: its error, if any.
pub record Dependency : Type 0 where
  pub name : Str
  pub type : Str
  pub required : Bool
  pub probe : Option Str

pub record Required : Type 0 where
  pub all_healthy : Bool
  pub failed : List Str

-- `checked_at` is the time that the text names.
pub record ReadyResponse : Type 0 where
  pub status : Str
  pub checked_at : Instant
  pub required : Required
  pub notes : Str

-- Live
unfoldable pub live : Bool → ℕ × Str
live draining = if draining then (503, codes "shutting_down") else (200, codes "ok")

-- the loop of Ready over the required dependencies
unfoldable pub failed_deps : List Dependency → List Str
failed_deps [] = []
failed_deps (d ∷ ds) =
    let rest = failed_deps ds in
    if not d.required then rest else elim d.probe [ none ↦ rest | some _ ↦ d.name ∷ rest ]

abbrev unready : Instant → List Str → Str → ReadyResponse
unready now failed notes = record {
  status = codes "unready";
  checked_at = now;
  required = record { all_healthy = false; failed = failed };
  notes = notes;
}

abbrev ready_answer : Instant → List Str → ℕ × ReadyResponse
ready_answer now [] = (
  200,
  record {
    status = codes "ready";
    checked_at = now;
    required = record { all_healthy = true; failed = [] };
    notes = [];
  },
)
ready_answer now (f ∷ fs) = (503, unready now (f ∷ fs) (codes "required dependency unhealthy"))

-- Ready
unfoldable pub ready : Config → Instant → Bool → List Dependency → Instant → ℕ × ReadyResponse
unfolding failed_deps sub
ready cfg start draining deps now =
    if draining
    then (503, unready now [] (codes "draining"))
    else if ltb_ℤ (sub now start) cfg.readiness_startup_grace
    then (503, unready now [] (codes "startup grace"))
    else ready_answer now (failed_deps deps)

-- depResult
pub record DepResult : Type 0 where
  pub name : Str
  pub type : Str
  pub required : Bool
  pub latency_ms : ℤ
  pub status : Str
  pub error : Option Str

pub record Counters : Type 0 where
  pub ok : ℕ
  pub warn : ℕ
  pub fail : ℕ
  pub timeout : ℕ
  pub skipped : ℕ

-- One goroutine of probeStatus, with the times before and after its probe; `late` is whether the
-- deadline had passed when the probe returned.
unfoldable pub dep_result : Dependency → Bool → Instant → Instant → DepResult
unfolding milliseconds sub
dep_result d late began ended = record {
  name = d.name;
  type = d.type;
  required = d.required;
  latency_ms = milliseconds (sub ended began);
  status = elim d.probe [
    | none ↦ codes "ok"
    | some _ ↦ if late then codes "timeout" else codes "fail"
  ];
  error = d.probe;
}

-- the `switch` over the status of a result
unfoldable pub count_status : Str → Counters → Counters
count_status s c =
    if s == codes "ok"
    then record c { ok = c.ok + 1 }
    else if s == codes "warn"
    then record c { warn = c.warn + 1 }
    else if s == codes "timeout"
    then record c { timeout = c.timeout + 1 }
    else if s == codes "skipped"
    then record c { skipped = c.skipped + 1 }
    else record c { fail = c.fail + 1 }

-- res.Status != "ok" && res.Status != "warn" && res.Status != "skipped"
unfoldable pub is_bad : Str → Bool
is_bad s = not (s == codes "ok") && (not (s == codes "warn") && not (s == codes "skipped"))

unfoldable pub worsen : DepResult → Str → Str
unfolding is_bad
worsen r overall =
    if is_bad r.status
    then (if r.required
        then codes "unhealthy"
        else if not (overall == codes "unhealthy")
        then codes "degraded"
        else overall)
    else overall

pub record Tally : Type 0 where
  pub counters : Counters
  pub overall : Str

-- the loop over the results
unfoldable pub tally : List DepResult → Tally → Tally
unfolding count_status worsen
tally [] t = t
tally (r ∷ rs) t =
    tally rs (record { counters = count_status r.status t.counters; overall = worsen r t.overall })

abbrev pub no_counts : Counters
no_counts = record { ok = 0; warn = 0; fail = 0; timeout = 0; skipped = 0 }

-- statusResponse; `checked_at` is the time that the text names, and `uptime` is in nanoseconds.
pub record StatusResponse : Type 0 where
  pub status : Str
  pub incomplete : Bool
  pub checked_at : Instant
  pub cache_age_ms : ℤ
  pub build : Info
  pub uptime : Duration
  pub dependencies : List DepResult
  pub counters : Counters

-- probeStatus after its goroutines are done; `now` is its first reading of the clock, and `incomplete`
-- whether the deadline tripped.
unfoldable pub summarize : Vars → Instant → Instant → List DepResult → Bool → StatusResponse
unfolding tally get sub
summarize vars start now results incomplete =
    let t = tally results (record { counters = no_counts; overall = codes "healthy" }) in
    record {
      status = t.overall;
      incomplete = incomplete;
      checked_at = now;
      cache_age_ms = pos 0;
      build = get vars;
      uptime = sub now start;
      dependencies = results;
      counters = t.counters;
    }

-- statusCode
unfoldable pub status_code : StatusResponse → ℕ
status_code r = if r.incomplete then 206 else if r.status == codes "unhealthy" then 503 else 200

-- The cached answer and the time of its storing.
pub record Cached : Type 0 where
  pub response : StatusResponse
  pub cached_at : Instant

-- Handler: what its calls share
pub record Handler : Type 0 where
  pub cfg : Config
  pub start : Instant
  pub draining : Bool
  pub cached : Option Cached

-- New; `now` is what the clock reads.
unfoldable pub new : Config → Instant → Handler
new cfg now = record { cfg = cfg; start = now; draining = false; cached = none }

-- SetDraining
unfoldable pub set_draining : Handler → Handler
set_draining h = record h { draining = true }

-- The answer of the cache within its time, with its age
abbrev pub fresh_in : Handler → Instant → Option Cached → Option StatusResponse
fresh_in h now none = none
fresh_in h now (some c) =
    if ltb_ℤ (sub now c.cached_at) h.cfg.status_cache_ttl
    then some (record c.response {
      cache_age_ms = milliseconds (sub now c.cached_at);
      uptime = sub now h.start;
    })
    else none

-- Status: `probed` is what a new probe yields, `stored` the time at which it is stored, and `answered`
-- the last reading of the clock.
unfoldable pub status :
    Handler → Instant → StatusResponse → Instant → Instant → Option Cached × (ℕ × StatusResponse)
unfolding status_code sub milliseconds
status h now probed stored answered = elim (fresh_in h now h.cached) [
  | some r ↦ (h.cached, (status_code r, r))
  | none ↦
      let r = record probed { cache_age_ms = pos 0; uptime = sub answered h.start } in
      (some (record { response = probed; cached_at = stored }), (status_code r, r))
]
