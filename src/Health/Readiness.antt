-- ===== src/Health/Readiness.antt =====
-- The readiness answer of internal/health.
use s3_registry.Prelude.{
  ◌≡◌, ◌↔◌, ◌⊎◌, refl, Bool, true, false, not, ◌&&◌, ◌||◌, Option, none, some, List, [], ◌∷◌, arith,
}
use s3_registry.Prelude.Int.{ltb_ℤ}
use s3_registry.Instant.{Instant, sub}
use s3_registry.Health.{Config, Dependency, failed_deps, ready}

abbrev pub is_none {ℓ} : {A : Type ℓ} → Option A → Bool
is_none none = true
is_none (some _) = false

-- Every required dependency is healthy.
abbrev pub all_required : List Dependency → Bool
all_required [] = true
all_required (d ∷ ds) = (not d.required || is_none d.probe) && all_required ds

failed_deps-nil : (ds : List Dependency) → failed_deps ds ≡ [] → all_required ds ≡ true
unfolding failed_deps
failed_deps-nil [] h = refl
failed_deps-nil (d ∷ ds) h = ground (arith, failed_deps-nil ds)

all_required-nil : (ds : List Dependency) → all_required ds ≡ true → failed_deps ds ≡ []
unfolding failed_deps
all_required-nil [] h = refl
all_required-nil (d ∷ ds) h = ground (arith, all_required-nil ds)

-- Ready answers 200, with the body `ready`, exactly if the process does not drain, its startup grace
-- is over and every required dependency is healthy; any other answer is 503.
pub ready_iff :
    (cfg : Config) (start : Instant) (draining : Bool) (deps : List Dependency) (now : Instant)
    → (((ready cfg start draining deps now).0 ≡ 200) ↔ (
        (draining ≡ false)
        × (ltb_ℤ (sub now start) cfg.readiness_startup_grace ≡ false)
        × (all_required deps ≡ true)))
      × (((ready cfg start draining deps now).0 ≡ 200)
          ↔ ((ready cfg start draining deps now).1.required.all_healthy ≡ true))
      × (((ready cfg start draining deps now).0 ≡ 200)
          ⊎ ((ready cfg start draining deps now).0 ≡ 503))
unfolding ready
ready_iff cfg start draining deps now = ground (arith, failed_deps-nil deps, all_required-nil deps)
