-- ===== src/Cli/Opening.antt =====
-- When the commands of cmd/s3reg get a store, and what the store then presigns.
use s3_registry.Prelude.{
  ◌≡◌, ◌≢◌, refl, sym, ◌∙◌, ◌⊎◌, false, [], Option, none, some, Bool-cases, inl, inr, arith, ◌∷◌,
  if◌then◌else◌,
}
use s3_registry.Text.{Str, codes, ◌==◌, eq_iff}
use s3_registry.Instant.{Duration}
use s3_registry.Result.{Result, ok, err, usage}
use s3_registry.Store.Client.{Sdk, Store, new, configure, region_of, presign_get}
use s3_registry.Cli.{Given, given_or, env_or, root_flags, new_store, store_config}

-- The bucket that the flag names, or else the variable S3REG_BUCKET.
abbrev pub wanted_bucket : (Str → Str) → Given → Str
wanted_bucket getenv g = given_or g.bucket (getenv (codes "S3REG_BUCKET"))

module _ (A : Sdk) (getenv : Str → Str) (g : Given) where
  -- A store on the bucket that is wanted, whose client has the endpoint and the addressing of its
  -- configuration and presigns for that bucket; or the reason why there is none.
  abbrev pub IsOpened : Result (Store A) → Type 0
  IsOpened (ok s) =
      (s.config.bucket ≡ wanted_bucket getenv g)
      × (wanted_bucket getenv g ≢ [])
      × ((aws : A.Aws) × (A.load_default_config (region_of s.config) ≡ ok aws)
          × (s.api ≡ A.new_from_config aws (configure s.config)))
      × ((key : Str) (ttl : Duration)
          → presign_get A key ttl s ≡ A.presign_get_object s.api (wanted_bucket getenv g) key ttl)
  IsOpened (err e) =
      ((wanted_bucket getenv g ≡ []) × (e ≡ usage (codes "bucket is required")))
      ⊎ (A.load_default_config (region_of (store_config (root_flags getenv g))) ≡ err e)

  bucket_lem : (root_flags getenv g).bucket ≡ wanted_bucket getenv g
  unfolding root_flags env_or ◌==◌
  bucket_lem = env_or_empty (getenv (codes "S3REG_BUCKET")) g.bucket
    where
      env_or_empty :
          (v : Str) (o : Option Str) → given_or o (if v == [] then [] else v) ≡ given_or o v
      env_or_empty v (some b) = refl
      env_or_empty [] none = refl
      env_or_empty (c ∷ v) none = refl

  opened :
      (r : Result A.Aws)
      → A.load_default_config (region_of (store_config (root_flags getenv g))) ≡ r
      → (root_flags getenv g).bucket == [] ≡ false
      → IsOpened (new_store A (root_flags getenv g))
  unfolding new_store new presign_get
  opened (err e) h n = rw (n, h) (inr h)
  opened (ok aws) h n =
      rw (n, h)
        (
          bucket_lem,
          (λ e. absurd (ground (arith, n, eq_iff (root_flags getenv g).bucket [], bucket_lem ∙ e))),
          (aws, h, refl),
          λ key ttl. rw bucket_lem refl,
        )

  -- The commands open a store exactly on the bucket of the flag --bucket, or of S3REG_BUCKET without it;
  -- they fail only if that is empty or the SDK finds no configuration.
  pub new_store-IsOpened : IsOpened (new_store A (root_flags getenv g))
  unfolding new_store
  new_store-IsOpened = elim (Bool-cases ((root_flags getenv g).bucket == [])) [
    | inl y ↦ rw y (inl (sym bucket_lem ∙ (eq_iff _ _).0 y, refl))
    | inr n ↦ opened _ refl n
  ]
