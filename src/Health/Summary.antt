-- ===== src/Health/Summary.antt =====
-- The status answer of internal/health: its counters and its overall status.
use s3_registry.Prelude.{
  ℕ, ◌+◌, ◌≡◌, ◌∙◌, refl, Bool, true, false, not, ◌&&◌, ◌||◌, List, [], ◌∷◌, arith, if◌then◌else◌,
  length,
}
use s3_registry.Text.{Str, codes, ◌==◌, eq_refl}
use s3_registry.Instant.{Instant}
use s3_registry.BuildInfo.{Vars}
use s3_registry.Health.{
  DepResult, Counters, Tally, count_status, is_bad, worsen, tally, no_counts, summarize,
  status_code,
}

abbrev pub total : Counters → ℕ
total c = c.ok + c.warn + c.fail + c.timeout + c.skipped

-- The three statuses that leave a dependency in order
abbrev pub is_good : Str → Bool
is_good s = s == codes "ok" || (s == codes "warn" || s == codes "skipped")

-- Some result, or some required one, is not in order.
abbrev pub any_bad : List DepResult → Bool
any_bad [] = false
any_bad (r ∷ rs) = not (is_good r.status) || any_bad rs

abbrev pub any_required_bad : List DepResult → Bool
any_required_bad [] = false
any_required_bad (r ∷ rs) = (not (is_good r.status) && r.required) || any_required_bad rs

-- The status of a run of results, from the status so far.
abbrev pub overall_of : List DepResult → Str → Str
overall_of rs o =
    if any_required_bad rs
    then codes "unhealthy"
    else if any_bad rs && not (o == codes "unhealthy")
    then codes "degraded"
    else o

total-count_status : (s : Str) (c : Counters) → total (count_status s c) ≡ total c + 1
unfolding count_status
total-count_status s c = ground arith

total-tally :
    (rs : List DepResult) (t : Tally) → total (tally rs t).counters ≡ total t.counters + length rs
unfolding tally
total-tally [] t = omega arith
total-tally (r ∷ rs) t = omega (
  arith,
  total-tally rs
      (record { counters = count_status r.status t.counters; overall = worsen r t.overall }),
  total-count_status r.status t.counters,
)

unhealthy_eq : codes "unhealthy" == codes "unhealthy" ≡ true
unhealthy_eq = eq_refl (codes "unhealthy")

degraded_ne : codes "degraded" == codes "unhealthy" ≡ false
unfolding ◌==◌
degraded_ne = refl

healthy_ne : codes "healthy" == codes "unhealthy" ≡ false
unfolding ◌==◌
healthy_ne = refl

overall_of-worsen :
    (r : DepResult) (rs : List DepResult) (o : Str)
    → overall_of rs (worsen r o) ≡ overall_of (r ∷ rs) o
unfolding worsen is_bad
overall_of-worsen r rs o = ground (arith, unhealthy_eq, degraded_ne)

overall-tally : (rs : List DepResult) (t : Tally) → (tally rs t).overall ≡ overall_of rs t.overall
unfolding tally
overall-tally [] t = refl
overall-tally (r ∷ rs) t =
    overall-tally rs
      (record { counters = count_status r.status t.counters; overall = worsen r t.overall })
    ∙ overall_of-worsen r rs t.overall

unhealthy_counts : (rs : List DepResult) → any_required_bad rs ≡ true → any_bad rs ≡ true
unhealthy_counts [] h = cc
unhealthy_counts (r ∷ rs) h = ground (arith, unhealthy_counts rs)

overall_lem :
    (rs : List DepResult)
    → (tally rs (record { counters = no_counts; overall = codes "healthy" })).overall ≡ (
        if any_required_bad rs
        then codes "unhealthy"
        else if any_bad rs
        then codes "degraded"
        else codes "healthy")
overall_lem rs = overall-tally rs _ ∙ rw healthy_ne (ground arith)

-- The counters of the status answer add up to the number of dependencies. It is unhealthy exactly if
-- a required dependency is bad, else degraded exactly if any is bad, else healthy; the code is 206 if
-- the deadline tripped, else 503 exactly if a required dependency is bad, else 200.
pub summarize_lem :
    (vars : Vars) (start now : Instant) (rs : List DepResult) (incomplete : Bool)
    → (total (summarize vars start now rs incomplete).counters ≡ length rs)
      × ((summarize vars start now rs incomplete).status ≡ (
          if any_required_bad rs
          then codes "unhealthy"
          else if any_bad rs
          then codes "degraded"
          else codes "healthy"))
      × (status_code (summarize vars start now rs incomplete)
          ≡ (if incomplete then 206 else if any_required_bad rs then 503 else 200))
unfolding summarize status_code
summarize_lem vars start now rs incomplete = (
  total-tally rs _ ∙ omega arith,
  overall_lem rs,
  rw (overall_lem rs) (ground (arith, unhealthy_eq, degraded_ne, healthy_ne)),
)
