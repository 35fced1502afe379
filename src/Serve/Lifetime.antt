-- ===== src/Serve/Lifetime.antt =====
-- The server of internal/server from `runServe` of cmd/s3reg/serve.go on: requests before the signal, and
-- those that are still answered while it drains.
use s3_registry.Prelude.{
  ℕ, ◌≡◌, refl, ap, ◌∙◌, Bool, true, false, Option, none, some, List, [], Bool-cases, inl, inr,
  if◌then◌else◌, ◌||◌,
}
use s3_registry.Text.{◌==◌}
use s3_registry.Text.Unicode.{Unicode}
use s3_registry.Dict.{lookup}
use s3_registry.Instant.{Instant}
use s3_registry.Semver.{Library, IsLawful}
use s3_registry.Health as Health
use s3_registry.Server.{passes}
use s3_registry.Server.Cached.{IsGood}
use s3_registry.Server.Routes.{Endpoint, Route, Request, Mux, build_router}
use s3_registry.Server.Routes as Routes
use s3_registry.Server.Serving.{
  Server, World, Reply, new, answer, answer_status, answer_artifact, answer_at, handle, live, ready,
  cached_index,
}
use s3_registry.Server.Replies.{handle-IsReply, IsReply}
use s3_registry.Result.{Result}
use s3_registry.Serve.{Env, serve_config, signaled, finish, drain}

pub data Phase : Type 0 where
  running draining : Phase

abbrev pub is_draining : Phase → Bool
is_draining running = false
is_draining draining = true

-- The code of a health answer
abbrev pub code_of : Reply → ℕ
code_of (live (c, _)) = c
code_of (ready (c, _)) = c
code_of _ = 0

module _ (L : Library) (u : Unicode) (m : Mux) (own : List Route) where
  -- The states of the server: from the start, by requests, and by the signal, once.
  pub data Life : Phase → Server → Type 0 where
    starts : (e : Env) (now : Instant) → Life running (new (serve_config e) now)
    answers :
        {p : Phase} {s : Server} (w : World) (r : Request)
        → Life p s
        → Life p (handle L w u m own r s).0
    stops :
        {s : Server} (shutdown : Result (Unit {0}))
        → Life running s
        → Life draining (finish signaled shutdown s).0

  kept_either :
      (b : Bool) (s t : Server)
      → t.health.draining ≡ s.health.draining
      → (if b then s else t).health.draining ≡ s.health.draining
  kept_either true s t h = refl
  kept_either false s t h = h

  answer-draining :
      (w : World) (e : Endpoint) (s : Server)
      → (answer L w e s).0.health.draining ≡ s.health.draining
  unfolding answer answer_status answer_artifact cached_index
  answer-draining w Routes.live s = refl
  answer-draining w Routes.ready s = refl
  answer-draining w Routes.status s = refl
  answer-draining w (Routes.redirect to) s = refl
  answer-draining w Routes.list_tools s = refl
  answer-draining w Routes.list_versions s = refl
  answer-draining w Routes.resolve_version s = refl
  answer-draining w Routes.get_artifact s = kept_either (w.os == [] || w.arch == []) s _ refl
  answer-draining w (Routes.described what) s = refl

  handle-draining :
      (w : World) (r : Request) (s : Server)
      → (handle L w u m own r s).0.health.draining ≡ s.health.draining
  unfolding handle
  handle-draining w r s = elim (Bool-cases (passes u s.cfg.api_token r.path r.authorization)) [
    | inl y ↦ rw (y, handle) (routed (m.match_ (build_router own) r))
    | inr n ↦ rw (n, handle) refl
  ]
    where
      routed : (o : Option Endpoint) → (answer_at L w o s).0.health.draining ≡ s.health.draining
      routed none = refl
      routed (some e) = answer-draining w e s

  Life-draining : {p : Phase} {s : Server} → Life p s → s.health.draining ≡ is_draining p
  unfolding new Health.new finish drain Health.set_draining
  Life-draining (starts e now) = refl
  Life-draining (answers {s = s} w r l) = handle-draining w r s ∙ Life-draining l
  Life-draining (stops shutdown l) = refl

  Life-IsGood : IsLawful L → {p : Phase} {s : Server} → Life p s → IsGood L s.entries
  unfolding new finish drain lookup
  Life-IsGood law (starts e now) = λ tool entry h. absurd (cc)
  Life-IsGood law (answers {s = s} w r l) =
      (handle-IsReply L w s u m own r law (Life-IsGood law l)).1
  Life-IsGood law (stops shutdown l) = Life-IsGood law l

  live_code :
      (w : World) (s : Server) (b : Bool)
      → s.health.draining ≡ b
      → code_of (answer L w Routes.live s).1 ≡ (if b then 503 else 200)
  unfolding answer Health.live
  live_code w s true h = rw h refl
  live_code w s false h = rw h refl

  ready_code :
      (w : World) (s : Server)
      → s.health.draining ≡ true
      → code_of (answer L w Routes.ready s).1 ≡ 503
  unfolding answer Health.ready
  ready_code w s h = rw h refl

  -- At any time of its life the server keeps its cached indexes ordered and without duplicates, refuses a
  -- request that does not pass the bearer check and answers any other with the reply of its endpoint; once the signal has come, its liveness and its readiness are 503,
  -- and before that its liveness is 200.
  pub Life-IsReply :
      IsLawful L
      → {p : Phase} {s : Server} → Life p s
      → IsGood L s.entries
        × ((w : World) (r : Request) → IsReply L w s u m own r (handle L w u m own r s).1)
        × ((w : World)
            → (code_of (answer L w Routes.live s).1 ≡ (if is_draining p then 503 else 200))
              × (p ≡ draining → code_of (answer L w Routes.ready s).1 ≡ 503))
  Life-IsReply law {p} {s} l = (
    Life-IsGood law l,
    λ w r. (handle-IsReply L w s u m own r law (Life-IsGood law l)).0,
    λ w. (
      live_code w s (is_draining p) (Life-draining l),
      λ e. ready_code w s (Life-draining l ∙ ap is_draining e),
    ),
  )
