-- ===== src/Serve.antt =====
-- cmd/s3reg/serve.go: the configuration of the server from the environment, and its life up to the end
-- of the process. net/http and the signals are parameters: what `select` finds, and what Shutdown
-- returns.
pub mod Lifetime
use s3_registry.Prelude.{Option, none, some, [], ℕ, ◌*◌, if◌then◌else◌}
use s3_registry.Prelude.Int.{pos}
use s3_registry.Text.{Str, codes, ◌==◌}
use s3_registry.Instant.{Instant, Duration}
use s3_registry.Result.{Error, Result, ok, err}
use s3_registry.Health.{set_draining}
use s3_registry.Cli.{env_or}
use s3_registry.Server.Serving.{Config, Server, new}

-- The environment: os.Getenv, and time.ParseDuration where it succeeds.
pub record Env : Type 0 where
  pub getenv : Str → Str
  pub parse_duration : Str → Option Duration

-- envDuration
unfoldable pub env_duration : Env → Str → Duration → Duration
env_duration e key def =
    let v = e.getenv key in
    if v == [] then def else elim (e.parse_duration v) [ none ↦ def | some d ↦ d ]

abbrev milliseconds : ℕ → Duration
milliseconds n = pos (n * 1000000)

abbrev seconds : ℕ → Duration
seconds n = pos (n * 1000000000)

-- the configuration of runServe
unfoldable pub serve_config : Env → Config
unfolding env_duration
serve_config e = record {
  api_token = e.getenv (codes "S3REG_API_TOKEN");
  presign_ttl = env_duration e (codes "S3REG_PRESIGN_TTL") (seconds 300);
  cache_ttl = env_duration e (codes "S3REG_CACHE_TTL") (seconds 60);
  health = record {
    liveness_deadline = env_duration e (codes "LIVENESS_DEADLINE") (milliseconds 200);
    readiness_deadline = env_duration e (codes "READINESS_DEADLINE") (milliseconds 500);
    status_deadline = env_duration e (codes "STATUS_DEADLINE") (seconds 1);
    status_cache_ttl = env_duration e (codes "STATUS_CACHE_TTL") (seconds 1);
    readiness_startup_grace = env_duration e (codes "READINESS_STARTUP_GRACE") (seconds 15);
  };
}

-- the flag --addr of newServeCmd
unfoldable pub serve_addr : Env → Str
unfolding env_or
serve_addr e = env_or e.getenv (codes "S3REG_ADDR") (codes ":8080")

-- What ends the `select` of runServe
pub data Ending : Type 0 where
  listen_failed : Error → Ending
  signaled : Ending

-- the part of runServe that marks the process, before Shutdown
unfoldable pub drain : Server → Server
unfolding set_draining
drain s = record s { health = set_draining s.health }

-- the `select` of runServe; `shutdown` is what Shutdown returns.
unfoldable pub finish : Ending → Result (Unit {0}) → Server → Server × Result (Unit {0})
unfolding drain
finish (listen_failed e) shutdown s = (s, err e)
finish signaled shutdown s = (drain s, shutdown)
