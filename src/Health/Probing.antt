-- ===== src/Health/Probing.antt =====
-- probeStatus of internal/health: a goroutine for each dependency writes its result at the dependency's
-- place. The places in the order in which the goroutines end are an input.
use s3_registry.Prelude.{
  ℕ, zero, suc, ◌<◌, ◌≡◌, refl, ap, ◌∙◌, Bool, true, false, ◌||◌, none, some, List, [], ◌∷◌, map,
  length, get_elem?, All, arith, eqb, if◌then◌else◌,
}
use s3_registry.Prelude.Int.{pos}
use s3_registry.Result.{Result, ok, err, panic, ◌>>=◌}
use s3_registry.Instant.{Instant}
use s3_registry.BuildInfo.{Vars}
use s3_registry.Health.{Dependency, DepResult, StatusResponse, dep_result, summarize}

-- What one goroutine meets: the dependency with what its probe returns, whether the deadline had
-- passed then, and the times around the probe.
pub record Probe : Type 0 where
  pub dependency : Dependency
  pub late : Bool
  pub began : Instant
  pub ended : Instant

unfoldable pub result_of : Probe → DepResult
unfolding dep_result
result_of p = dep_result p.dependency p.late p.began p.ended

-- the zero depResult
abbrev pub blank : DepResult
blank = record {
  name = [];
  type = [];
  required = false;
  latency_ms = pos 0;
  status = [];
  error = none;
}

-- results[i] = res; out of range is a panic.
unfoldable pub write_at : ℕ → DepResult → List DepResult → Result (List DepResult)
write_at i r [] = err panic
write_at zero r (x ∷ rs) = ok (r ∷ rs)
write_at (suc i) r (x ∷ rs) = do rest ← write_at i r rs; ok (x ∷ rest)

-- the goroutine of a place
unfoldable pub finish_probe : List Probe → ℕ → List DepResult → Result (List DepResult)
unfolding result_of write_at
finish_probe probes i results = elim (get_elem? probes i) [
  | none ↦ err panic
  | some p ↦ write_at i (result_of p) results
]

-- the goroutines up to g.Wait(), as they end
unfoldable pub finish_probes : List Probe → List ℕ → List DepResult → Result (List DepResult)
unfolding finish_probe
finish_probes probes [] results = ok results
finish_probes probes (i ∷ order) results = do
  rs ← finish_probe probes i results
  finish_probes probes order rs

-- probeStatus; `now` is its first reading of the clock, and `incomplete` whether the deadline tripped.
unfoldable pub probe_status :
    Vars → Instant → Instant → List Probe → List ℕ → Bool → Result StatusResponse
unfolding finish_probes summarize
probe_status vars start now probes order incomplete = do
  results ← finish_probes probes order (map (λ (p : Probe). blank) probes)
  ok (summarize vars start now results incomplete)

abbrev pub member : ℕ → List ℕ → Bool
member i [] = false
member i (j ∷ js) = eqb j i || member i js

-- Every place of the probes ends, and nothing else.
pub record IsSchedule (probes : List Probe) (order : List ℕ) : Type 0 where
  pub within : All (λ i. i < length probes) order
  pub every : (i : ℕ) → i < length probes → member i order ≡ true

-- The results where the given places are written.
partial : (ℕ → Bool) → List Probe → List DepResult
partial done' [] = []
partial done' (p ∷ ps) = (if done' 0 then result_of p else blank) ∷ partial (λ i. done' (suc i)) ps

partial-same :
    (d e : ℕ → Bool) (ps : List Probe)
    → ((i : ℕ) → i < length ps → d i ≡ e i)
    → partial d ps ≡ partial e ps
unfolding partial
partial-same d e [] h = refl
partial-same d e (p ∷ ps) h = ground (
  arith,
  h 0 (omega arith),
  partial-same (λ i. d (suc i)) (λ i. e (suc i)) ps (λ i l. h (suc i) (omega (arith, l))),
)

partial-none : (ps : List Probe) → map (λ (p : Probe). blank) ps ≡ partial (λ i. false) ps
unfolding partial
partial-none [] = refl
partial-none (p ∷ ps) = ap (λ rs. blank ∷ rs) (partial-none ps)

partial-all : (ps : List Probe) → partial (λ i. true) ps ≡ map result_of ps
unfolding partial
partial-all [] = refl
partial-all (p ∷ ps) = ap (λ rs. result_of p ∷ rs) (partial-all ps)

write_at-partial :
    (d : ℕ → Bool) (i : ℕ) (p : Probe) (ps : List Probe)
    → get_elem? ps i ≡ some p
    → write_at i (result_of p) (partial d ps) ≡ ok (partial (λ j. eqb i j || d j) ps)
unfolding write_at partial
write_at-partial d i p [] h = absurd (cc)
write_at-partial d zero p (q ∷ ps) h = ground (
  arith,
  partial-same (λ j. d (suc j)) (λ j. eqb 0 (suc j) || d (suc j)) ps (λ j l. ground arith),
)
write_at-partial d (suc i) p (q ∷ ps) h = ground (
  arith,
  write_at-partial (λ j. d (suc j)) i p ps h,
  partial-same (λ j. eqb i j || d (suc j)) (λ j. eqb (suc i) (suc j) || d (suc j)) ps
      (λ j l. ground arith),
)

get_elem?-within :
    (i : ℕ) (ps : List Probe) → i < length ps → (p : Probe) × (get_elem? ps i ≡ some p)
get_elem?-within i [] l = absurd (omega arith)
get_elem?-within zero (p ∷ ps) l = (p, refl)
get_elem?-within (suc i) (p ∷ ps) l = get_elem?-within i ps (omega (arith, l))

finish_probe-partial :
    (d : ℕ → Bool) (i : ℕ) (ps : List Probe)
    → i < length ps
    → finish_probe ps i (partial d ps) ≡ ok (partial (λ j. eqb i j || d j) ps)
unfolding finish_probe
finish_probe-partial d i ps h =
    let (p, e) = get_elem?-within i ps h in rw (e, finish_probe) (write_at-partial d i p ps e)

finish_probes-partial :
    (d : ℕ → Bool) (ps : List Probe) (order : List ℕ)
    → All (λ i. i < length ps) order
    → finish_probes ps order (partial d ps) ≡ ok (partial (λ j. member j order || d j) ps)
unfolding finish_probes
finish_probes-partial d ps [] h = ap ok (partial-same d (λ j. false || d j) ps (λ j l. refl))
finish_probes-partial d ps (i ∷ order) (h, hs) = rw (finish_probe-partial d i ps h) (
    finish_probes-partial (λ j. eqb i j || d j) ps order hs
    ∙ ap ok (
        partial-same (λ j. member j order || (eqb i j || d j))
          (λ j. (eqb i j || member j order) || d j) ps (λ j l. ground arith)))

-- In whatever order the goroutines of probeStatus end, nothing panics, and the answer is the summary of the
-- results of the dependencies in their own order.
pub probe_status_lem :
    (vars : Vars) (start now : Instant) (probes : List Probe) (order : List ℕ) (incomplete : Bool)
    → IsSchedule probes order
    → probe_status vars start now probes order incomplete
      ≡ ok (summarize vars start now (map result_of probes) incomplete)
unfolding probe_status
probe_status_lem vars start now probes order incomplete s =
    rw
      (
        partial-none probes,
        finish_probes-partial (λ i. false) probes order s.within,
        partial-same (λ j. member j order || false) (λ j. true) probes
            (λ j l. ground (arith, s.every j l)),
        partial-all probes,
      )
      refl
