-- ===== src/Health/Requests/Answering.antt =====
-- What an answer of Status of internal/health is that has the response of one run.
use mathlib.Core.List.{Memᴰ}
use s3_registry.Prelude.{
  ◌≡◌, refl, sym, ap, ◌∙◌, true, Option, none, some, some-injective, List, ◌∷◌, ◌⊎◌, inl, inr, map,
  length, length-map, Bool-cases,
}
use s3_registry.Prelude.Int.{pos, ltb_ℤ}
use s3_registry.Instant.{Instant, sub, milliseconds}
use s3_registry.BuildInfo.{Vars}
use s3_registry.Health.{Config, Cached, StatusResponse, Handler, fresh_in, status_code, summarize}
use s3_registry.Health.Summary.{total, summarize_lem}
use s3_registry.Health.Probing.{result_of}
use s3_registry.Health.Requests.{Run, Answer, Identity, probed, IsReport}

-- A response that is found in its time
pub fresh_in-some :
    (h : Handler) (now : Instant) (o : Option Cached) (r : StatusResponse)
    → fresh_in h now o ≡ some r
    → (c : Cached) × (o ≡ some c)
      × (ltb_ℤ (sub now c.cached_at) h.cfg.status_cache_ttl ≡ true)
      × (r ≡ record c.response {
        cache_age_ms = milliseconds (sub now c.cached_at);
        uptime = sub now h.start;
      })
fresh_in-some h now none r e = absurd (cc)
fresh_in-some h now (some c) r e =
    elim (Bool-cases (ltb_ℤ (sub now c.cached_at) h.cfg.status_cache_ttl)) [
      | inl y ↦ (c, refl, y, sym (some-injective _ _ (rw y at e)))
      | inr n ↦ absurd (cc (rw n at e))
    ]

module _ (vars : Vars) (deps : List Identity) (cfg : Config) (start : Instant) where
  -- The response of a run
  abbrev pub reported : Run → StatusResponse
  reported r = summarize vars start r.now (map result_of r.probes) r.incomplete

  pub record IsProbed (r : Run) : Type 0 where
    pub dependencies : map probed r.probes ≡ deps
    pub response : r.response ≡ reported r

  -- An answer with the response of a run, but for its age and its uptime
  pub report :
      (runs : List Run) (r : Run) (a : Answer)
      → Memᴰ r runs
      → IsProbed r
      → a.response ≡ record r.response {
        cache_age_ms = a.response.cache_age_ms;
        uptime = sub a.answered start;
      }
      → a.code ≡ status_code a.response
      → ((a.shared ≡ true) × (a.response.cache_age_ms ≡ pos 0))
        ⊎ ((ltb_ℤ (sub a.asked r.stored) cfg.status_cache_ttl ≡ true)
            × (a.response.cache_age_ms ≡ milliseconds (sub a.asked r.stored)))
      → IsReport vars deps cfg start runs a
  unfolding status_code
  report runs r a m p e c age =
      let (count', status', code') =
        summarize_lem vars start r.now (map result_of r.probes) r.incomplete in
      let same =
        e
        ∙ ap
            (λ (x : StatusResponse). record x {
              cache_age_ms = a.response.cache_age_ms;
              uptime = sub a.answered start;
            })
            p.response in
      record {
        run = r;
        logged = m;
        dependencies = p.dependencies;
        summary = same;
        counted =
            ap (λ (x : StatusResponse). total x.counters) same
            ∙ count'
            ∙ length-map result_of r.probes
            ∙ sym (length-map probed r.probes)
            ∙ ap length p.dependencies;
        status = ap (λ (x : StatusResponse). x.status) same ∙ status';
        code = c ∙ ap status_code same ∙ code';
        age = age;
      }

  pub later_run :
      (runs : List Run) (q : Run) (a : Answer)
      → IsReport vars deps cfg start runs a
      → IsReport vars deps cfg start (q ∷ runs) a
  later_run runs q a h = record {
    run = h.run;
    logged = Memᴰ.tail h.logged;
    dependencies = h.dependencies;
    summary = h.summary;
    counted = h.counted;
    status = h.status;
    code = h.code;
    age = h.age;
  }
