-- ===== src/Health/Requests.antt =====
-- Status of internal/health under requests that run at the same time, with SetDraining among them. A run of the
-- function that Status hands to singleflight ends with the storing of its response. Of singleflight
-- only this is used: what it gives to a caller is the response of a run.
pub mod Answering
pub mod Reports
use mathlib.Core.List.{Memᴰ}
use s3_registry.Prelude.{
  ℕ, ◌≡◌, Bool, true, false, none, some, List, [], ◌∷◌, ◌⊎◌, map, length, if◌then◌else◌,
}
use s3_registry.Prelude.Int.{ℤ, pos, ltb_ℤ}
use s3_registry.Text.{Str, codes}
use s3_registry.Result.{ok}
use s3_registry.Instant.{Instant, Duration, sub, milliseconds}
use s3_registry.BuildInfo.{Vars}
use s3_registry.Health.{
  Config, Dependency, DepResult, StatusResponse, Handler, new, set_draining, fresh_in, status_code,
  summarize,
}
use s3_registry.Health.Summary.{total, any_bad, any_required_bad}
use s3_registry.Health.Probing.{Probe, result_of, IsSchedule, probe_status}

-- A run of the function: its first reading of the clock, its probes and the order in which they end,
-- whether the deadline tripped, the response, and the time of its storing.
pub record Run : Type 0 where
  pub now : Instant
  pub probes : List Probe
  pub order : List ℕ
  pub incomplete : Bool
  pub response : StatusResponse
  pub stored : Instant

-- What Status answers: the first and the last reading of its clock, and `shared` where the response
-- came through singleflight.
pub record Answer : Type 0 where
  pub asked : Instant
  pub answered : Instant
  pub code : ℕ
  pub response : StatusResponse
  pub shared : Bool

pub record State : Type 0 where
  pub handler : Handler
  pub runs : List Run
  pub answers : List Answer

-- What a dependency is, whatever its probe returns
abbrev pub Identity : Type 0
Identity = Str × Str × Bool

abbrev pub probed : Probe → Identity
probed p = (p.dependency.name, p.dependency.type, p.dependency.required)

-- The function after its probes, under the lock
unfoldable pub store_run : Run → State → State
store_run r s = record s {
  handler = record s.handler {
    cached = some (record { response = r.response; cached_at = r.stored });
  };
  runs = r ∷ s.runs;
}

-- A request that finds a response in its time
unfoldable pub hit_answer : Instant → StatusResponse → Answer
unfolding status_code
hit_answer now r = record {
  asked = now;
  answered = now;
  code = status_code r;
  response = r;
  shared = false;
}

-- A request that has waited for a run
unfoldable pub share_answer : Handler → Instant → Instant → StatusResponse → Answer
unfolding status_code
share_answer h asked answered r =
    let resp = record r { cache_age_ms = pos 0; uptime = sub answered h.start } in
    record {
      asked = asked;
      answered = answered;
      code = status_code resp;
      response = resp;
      shared = true;
    }

module _ (vars : Vars) (deps : List Identity) where
  pub data Step (s : State) : State → Type 0 where
    drains : Step s (record s { handler = set_draining s.handler })
    -- A run for the handler's dependencies ends.
    completes :
        (r : Run)
        → map probed r.probes ≡ deps
        → IsSchedule r.probes r.order
        → probe_status vars s.handler.start r.now r.probes r.order r.incomplete ≡ ok r.response
        → Step s (store_run r s)
    hits :
        (now : Instant) (r : StatusResponse)
        → fresh_in s.handler now s.handler.cached ≡ some r
        → Step s (record s { answers = hit_answer now r ∷ s.answers })
    shares :
        (r : Run) (asked answered : Instant)
        → Memᴰ r s.runs
        → Step s
            (record s { answers = share_answer s.handler asked answered r.response ∷ s.answers })

  pub data Reach (cfg : Config) (start : Instant) : State → Type 0 where
    started : Reach cfg start (record { handler = new cfg start; runs = []; answers = [] })
    next : {s t : State} → Reach cfg start s → Step s t → Reach cfg start t

  -- An answer reports what one run found: every dependency of the handler in its place, the summary of
  -- their results with its code, and a response of its own or one within its time to live.
  pub record IsReport (cfg : Config) (start : Instant) (runs : List Run) (a : Answer) : Type 0 where
    pub run : Run
    pub logged : Memᴰ run runs
    pub dependencies : map probed run.probes ≡ deps
    pub summary :
        a.response
        ≡ record (summarize vars start run.now (map result_of run.probes) run.incomplete) {
          cache_age_ms = a.response.cache_age_ms;
          uptime = sub a.answered start;
        }
    pub counted : total a.response.counters ≡ length deps
    pub status : a.response.status ≡ (
        if any_required_bad (map result_of run.probes)
        then codes "unhealthy"
        else if any_bad (map result_of run.probes)
        then codes "degraded"
        else codes "healthy")
    pub code : a.code ≡ (
        if run.incomplete
        then 206
        else if any_required_bad (map result_of run.probes)
        then 503
        else 200)
    pub age :
        ((a.shared ≡ true) × (a.response.cache_age_ms ≡ pos 0))
        ⊎ ((ltb_ℤ (sub a.asked run.stored) cfg.status_cache_ttl ≡ true)
            × (a.response.cache_age_ms ≡ milliseconds (sub a.asked run.stored)))
