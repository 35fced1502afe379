-- ===== src/Tests/HealthCases.antt =====
-- internal/health at a required dependency that fails.
use s3_registry.Prelude.{map, ◌≡◌, ◌↔◌, ◌⊎◌, true, false, some, List, [], ◌∷◌}
use s3_registry.Prelude.Int.{pos, ltb_ℤ}
use s3_registry.Text.{codes}
use s3_registry.Instant.{sub, milliseconds}
use s3_registry.BuildInfo.{defaults}
use s3_registry.Health.{Config, Dependency, ready, summarize, new}
use s3_registry.Health.Probing.{Probe, result_of}
use s3_registry.Health.Requests.{Run, Answer, State, Identity, store_run, hit_answer, share_answer}
use s3_registry.Health.Readiness.{all_required, ready_iff}

abbrev cfg : Config
cfg = record {
  liveness_deadline = pos 1;
  readiness_deadline = pos 1;
  status_deadline = pos 1;
  status_cache_ttl = pos 5;
  readiness_startup_grace = pos 3;
}

abbrev bucket : Dependency
bucket = record {
  name = codes "s3";
  type = codes "s3";
  required = true;
  probe = some (codes "no route");
}

ready_iff_example :
    (((ready cfg 10 false (bucket ∷ []) 20).0 ≡ 200) ↔ (
      (false ≡ false)
      × (ltb_ℤ (sub 20 10) cfg.readiness_startup_grace ≡ false)
      × (all_required (bucket ∷ []) ≡ true)))
    × (((ready cfg 10 false (bucket ∷ []) 20).0 ≡ 200)
        ↔ ((ready cfg 10 false (bucket ∷ []) 20).1.required.all_healthy ≡ true))
    × (((ready cfg 10 false (bucket ∷ []) 20).0 ≡ 200)
        ⊎ ((ready cfg 10 false (bucket ∷ []) 20).0 ≡ 503))
ready_iff_example = ready_iff cfg 10 false (bucket ∷ []) 20

abbrev fetched : Probe
fetched = record { dependency = bucket; late = false; began = 4; ended = 6 }

abbrev run : Run
run = record {
  now = 4;
  probes = fetched ∷ [];
  order = 0 ∷ [];
  incomplete = false;
  response = summarize defaults 1 4 (map result_of (fetched ∷ [])) false;
  stored = 7;
}

abbrev only_bucket : List Identity
only_bucket = (codes "s3", codes "s3", true) ∷ []

abbrev probed_once : State
probed_once = store_run run (record { handler = new cfg 1; runs = []; answers = [] })

abbrev shared_answer : Answer
shared_answer = share_answer probed_once.handler 3 8 run.response

abbrev later_answer : Answer
later_answer =
    hit_answer 10
      (record run.response { cache_age_ms = milliseconds (sub 10 7); uptime = sub 10 1 })
