-- ===== src/Cli.antt =====
-- cmd/s3reg/main.go: the global flags with their defaults from the environment, and the store that the
-- commands open. cobra's parsing is a parameter, what it found of each flag.
pub mod Opening
pub mod Commands
pub mod Main
use s3_registry.Prelude.{Bool, true, false, Option, none, some, [], if◌then◌else◌}
use s3_registry.Text.{Str, codes, ◌==◌}
use s3_registry.Result.{Result, ok, err, usage}
use s3_registry.Store.Client.{Config, Sdk, Store, new}

-- envOr; `getenv` is os.Getenv, which is empty for a variable that is not set.
unfoldable pub env_or : (Str → Str) → Str → Str → Str
env_or getenv key def = if getenv key == [] then def else getenv key

-- flagBucket, flagRegion, flagEndpoint and flagPathStyle
pub record Flags : Type 0 where
  pub bucket : Str
  pub region : Str
  pub endpoint : Str
  pub path_style : Bool

-- What the command line gives for each of them, if anything
pub record Given : Type 0 where
  pub bucket : Option Str
  pub region : Option Str
  pub endpoint : Option Str
  pub path_style : Option Bool

abbrev pub given_or {ℓ} : {A : Type ℓ} → Option A → A → A
given_or none def = def
given_or (some a) def = a

-- newRootCmd: the persistent flags
unfoldable pub root_flags : (Str → Str) → Given → Flags
unfolding env_or
root_flags getenv g = record {
  bucket = given_or g.bucket (env_or getenv (codes "S3REG_BUCKET") []);
  region = given_or g.region (env_or getenv (codes "S3REG_REGION") []);
  endpoint = given_or g.endpoint (env_or getenv (codes "AWS_ENDPOINT_URL") []);
  path_style =
      given_or g.path_style (env_or getenv (codes "S3REG_S3_PATH_STYLE") [] == codes "true");
}

abbrev pub store_config : Flags → Config
store_config f = record {
  bucket = f.bucket;
  region = f.region;
  endpoint = f.endpoint;
  use_path_style = f.path_style;
}

-- newStore
unfoldable pub new_store : (A : Sdk) → Flags → Result (Store A)
unfolding new
new_store A f =
    if f.bucket == [] then err (usage (codes "bucket is required")) else new A (store_config f)
