-- ===== src/Health/Requests/Reports.antt =====
-- What every answer of Status of internal/health reports.
use mathlib.Core.List.{Memᴰ}
use mathlib.Core.List.Memᴰ
use s3_registry.Prelude.{◌≡◌, some, List, ◌∷◌}
use s3_registry.Instant.{Instant}
use s3_registry.BuildInfo.{Vars}
use s3_registry.Health.{Config, Cached}
use s3_registry.Health.Requests.{Run, Answer, State, Identity, IsReport}
use s3_registry.Health.Requests.Answering.{IsProbed}

module _ (vars : Vars) (deps : List Identity) (cfg : Config) (start : Instant) where
  -- The stored response is that of a run, at its time.
  record IsStored (runs : List Run) (c : Cached) : Type 0 where
    run : Run
    logged : Memᴰ run runs
    same : run.response ≡ c.response
    time : run.stored ≡ c.cached_at

  record Inv (s : State) : Type 0 where
    same_cfg : s.handler.cfg ≡ cfg
    same_start : s.handler.start ≡ start
    cached : (c : Cached) → s.handler.cached ≡ some c → IsStored s.runs c
    runs : (r : Run) → Memᴰ r s.runs → IsProbed vars deps cfg start r
    answers : (a : Answer) → Memᴰ a s.answers → IsReport vars deps cfg start s.runs a

  later_run-IsStored :
      (runs : List Run) (q : Run) (c : Cached) → IsStored runs c → IsStored (q ∷ runs) c
  later_run-IsStored runs q c h = record {
    run = h.run;
    logged = Memᴰ.tail h.logged;
    same = h.same;
    time = h.time;
  }
