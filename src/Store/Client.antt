-- ===== src/Store/Client.antt =====
-- New and PresignGet of internal/store/store.go. The AWS SDK is a parameter: its configuration, its
-- client, and its presigned requests.
use s3_registry.Prelude.{Bool, true, Option, none, some, [], if◌then◌else◌}
use s3_registry.Text.{Str, codes, ◌==◌}
use s3_registry.Instant.{Duration}
use s3_registry.Result.{Result, ok, err, usage, ◌>>=◌}

pub record Config : Type 0 where
  pub bucket : Str
  pub region : Str
  pub endpoint : Str
  pub use_path_style : Bool

-- The fields of s3.Options that New sets
pub record Options : Type 0 where
  pub base_endpoint : Option Str
  pub use_path_style : Bool

-- The SDK: what LoadDefaultConfig makes of a region, NewFromConfig, and PresignGetObject for a bucket
-- and a key.
pub record Sdk : Type 1 where
  pub Aws : Type 0
  pub Client : Type 0
  pub load_default_config : Option Str → Result Aws
  pub new_from_config : Aws → (Options → Options) → Client
  pub presign_get_object : Client → Str → Str → Duration → Result Str

-- the function that New gives to NewFromConfig
unfoldable pub configure : Config → Options → Options
configure cfg o = record {
  base_endpoint = if cfg.endpoint == [] then o.base_endpoint else some cfg.endpoint;
  use_path_style = if cfg.use_path_style then true else o.use_path_style;
}

abbrev pub region_of : Config → Option Str
region_of cfg = if cfg.region == [] then none else some cfg.region

module _ (A : Sdk) where
  pub record Store : Type 0 where
    pub config : Config
    pub api : A.Client
    pub presign : Str → Duration → Result Str

  -- New
  unfoldable pub new : Config → Result Store
  unfolding configure
  new cfg = if cfg.bucket == [] then err (usage (codes "bucket is required")) else (do
    aws ← A.load_default_config (region_of cfg)
    let client = A.new_from_config aws (configure cfg)
    ok (record {
      config = cfg;
      api = client;
      presign = λ key ttl. A.presign_get_object client cfg.bucket key ttl;
    }))

  -- PresignGet
  unfoldable pub presign_get : Str → Duration → Store → Result Str
  presign_get key ttl s = s.presign key ttl
