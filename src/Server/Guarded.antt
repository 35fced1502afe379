-- ===== src/Server/Guarded.antt =====
-- The bearer check of internal/server in front of the router.
use mathlib.Core.List.{Memᴰ}
use mathlib.Core.List.Memᴰ
use s3_registry.Prelude.{
  ℕ, ◌≡◌, ◌≢◌, refl, sym, subst, ap, ◌∙◌, ◌⊎◌, Bool, true, false, Option, none, some, List, [], ◌∷◌,
  arith, inl, inr, Bool-cases, All, All-append, All-map,
}
use s3_registry.Text.{Str, codes, has_prefix}
use s3_registry.Text.Unicode.{Unicode}
use s3_registry.Semver.{Library}
use s3_registry.Server.{passes}
use s3_registry.Server.Auth.{Presents, passes_iff}
use s3_registry.Server.Routes.{
  Endpoint, Route, Request, Mux, IsMux, build_router, health_routes, operations, literal,
}
use s3_registry.Server.Routes as Routes
use s3_registry.Server.Serving.{
  Server, World, Reply, unauthorized, tools, versions, resolved, download, answer, answer_status,
  answer_artifact, answer_at, handle,
}

-- A text with each escape, `%` and two digits, in place of one byte of another
pub data Escapes : Str → Str → Type 0 where
  nil : Escapes [] []
  plain : {raw path : Str} (c : ℕ) → c ≢ 37 → Escapes raw path → Escapes (c ∷ raw) (c ∷ path)
  escaped : {raw path : Str} (a b c : ℕ) → Escapes raw path → Escapes (37 ∷ a ∷ b ∷ raw) (c ∷ path)

-- The path is what the path as sent decodes to, where that is kept.
abbrev pub IsUrl : Request → Type 0
IsUrl r = (r.raw_path ≡ []) ⊎ Escapes r.raw_path r.path

abbrev pub Plain : Str → Type 0
Plain = All (λ c. c ≢ 37)

has_prefix-Escapes :
    {raw path : Str} (p : Str)
    → Escapes raw path
    → Plain p
    → has_prefix raw p ≡ true
    → has_prefix path p ≡ true
unfolding has_prefix
has_prefix-Escapes [] e h k = refl
has_prefix-Escapes (x ∷ p) nil h k = absurd (cc)
has_prefix-Escapes (x ∷ p) (plain c n e) (h, hs) k = ground (arith, has_prefix-Escapes p e hs)
has_prefix-Escapes (x ∷ p) (escaped a b c e) (h, hs) k = absurd (ground arith)

Plain-tools : Plain (codes "/tools")
Plain-tools = ground arith

All-Memᴰ {ℓ κ} : {A : Type ℓ} (P : A → Type κ) (xs : List A) {x : A} → All P xs → Memᴰ x xs → P x
All-Memᴰ P [] h m = absurd (Memᴰ.not-nil m)
All-Memᴰ P (y ∷ ys) h m = elim (Memᴰ.cases_cons m) [
  | inl e ↦ subst P (sym e) h.0
  | inr n ↦ All-Memᴰ P ys h.1 n
]

-- huma's own routes lead to none of the operations and are not under /tools.
abbrev pub is_tool : Endpoint → Bool
is_tool Routes.list_tools = true
is_tool Routes.list_versions = true
is_tool Routes.resolve_version = true
is_tool Routes.get_artifact = true
is_tool _ = false

abbrev pub OnlyDescribed : List Route → Type 0
OnlyDescribed = All (λ (r : Route). is_tool r.endpoint ≡ false)

-- The answers of the four operations
abbrev pub is_data : Reply → Bool
is_data (tools _) = true
is_data (versions _) = true
is_data (resolved _) = true
is_data (download _) = true
is_data _ = false

abbrev UnderTools : Route → Type 0
UnderTools r = is_tool r.endpoint ≡ true → has_prefix (literal r.pattern) (codes "/tools") ≡ true

registered : (own : List Route) → OnlyDescribed own → All UnderTools (build_router own)
unfolding build_router literal has_prefix
registered own d =
    All-append UnderTools health_routes _ (λ t. t, (λ t. t, (λ t. t, (λ t. t, (λ t. t, tt)))))
      (All-append UnderTools own operations (All-map _ _ (λ r n t. absurd (cc)) own d)
        (λ t. t, (λ t. t, (λ t. t, (λ t. t, tt)))))

has_prefix_trans :
    (s p q : Str) → has_prefix s p ≡ true → has_prefix p q ≡ true → has_prefix s q ≡ true
unfolding has_prefix
has_prefix_trans s p [] h k = refl
has_prefix_trans s [] (b ∷ q) h k = absurd (cc)
has_prefix_trans [] (a ∷ p) (b ∷ q) h k = absurd (cc)
has_prefix_trans (c ∷ s) (a ∷ p) (b ∷ q) h k = ground (arith, has_prefix_trans s p q)

module _ (L : Library) (w : World) where
  answer-is_data : (e : Endpoint) (s : Server) → is_data (answer L w e s).1 ≡ is_tool e
  unfolding answer answer_status answer_artifact
  answer-is_data Routes.live s = refl
  answer-is_data Routes.ready s = refl
  answer-is_data Routes.status s = refl
  answer-is_data (Routes.redirect to) s = refl
  answer-is_data Routes.list_tools s = refl
  answer-is_data Routes.list_versions s = refl
  answer-is_data Routes.resolve_version s = refl
  answer-is_data Routes.get_artifact s = refl
  answer-is_data (Routes.described what) s = refl

  is_refusal : Reply → Bool
  is_refusal unauthorized = true
  is_refusal _ = false

  answer-is_refusal : (e : Endpoint) (s : Server) → is_refusal (answer L w e s).1 ≡ false
  unfolding answer answer_status answer_artifact is_refusal
  answer-is_refusal Routes.live s = refl
  answer-is_refusal Routes.ready s = refl
  answer-is_refusal Routes.status s = refl
  answer-is_refusal (Routes.redirect to) s = refl
  answer-is_refusal Routes.list_tools s = refl
  answer-is_refusal Routes.list_versions s = refl
  answer-is_refusal Routes.resolve_version s = refl
  answer-is_refusal Routes.get_artifact s = refl
  answer-is_refusal (Routes.described what) s = refl

  answer_at-unauthorized :
      (o : Option Endpoint) (s : Server) → (answer_at L w o s).1 ≡ unauthorized → ⊥
  unfolding is_refusal
  answer_at-unauthorized none s h = cc
  answer_at-unauthorized (some e) s h =
      let refused : is_refusal (answer L w e s).1 ≡ true = ap is_refusal h in
      let kept = answer-is_refusal e s in cc

  module _ (u : Unicode) (m : Mux) (mux : IsMux m) (own : List Route) (only : OnlyDescribed own)
      (r : Request) (url : IsUrl r) where
    -- A request that chi leads to an operation has a path under /tools.
    guarded_path :
        (e : Endpoint)
        → m.match_ (build_router own) r ≡ some e
        → is_tool e ≡ true
        → has_prefix r.path (codes "/tools") ≡ true
    unfolding has_prefix
    guarded_path e h t =
        let (route, held, same, begins) = mux.matched (build_router own) r e h in
        let under : has_prefix (literal route.pattern) (codes "/tools") ≡ true =
          All-Memᴰ UnderTools (build_router own) (registered own only) held (ap is_tool same ∙ t) in
        elim begins [
          | inl p ↦ has_prefix_trans r.path (literal route.pattern) (codes "/tools") p under
          | inr p ↦
              decoded (has_prefix_trans r.raw_path (literal route.pattern) (codes "/tools") p under)
        ]
      where
        empty : r.raw_path ≡ [] → has_prefix r.raw_path (codes "/tools") ≡ true → ⊥
        empty e p = cc

        decoded :
            has_prefix r.raw_path (codes "/tools") ≡ true
            → has_prefix r.path (codes "/tools") ≡ true
        decoded p = elim url [
          | inl none' ↦ absurd (empty none' p)
          | inr e ↦ has_prefix-Escapes (codes "/tools") e Plain-tools p
        ]

    -- With a token configured, where chi matches as it documents, huma's own routes lead to no operation
    -- and the path is what the path as sent decodes to: the answer of an operation reaches only a
    -- request that presents the token, and a request that is refused changes nothing in the server.
    pub handle-guarded :
        (s : Server)
        → s.cfg.api_token ≢ []
        → (is_data (handle L w u m own r s).1 ≡ true → Presents u s.cfg.api_token r.authorization)
          × ((handle L w u m own r s).1 ≡ unauthorized → (handle L w u m own r s).0 ≡ s)
    unfolding handle
    handle-guarded s given = elim (Bool-cases (passes u s.cfg.api_token r.path r.authorization)) [
      | inl y ↦
          rw (y, handle)
            (
              presented y (m.match_ (build_router own) r) refl,
              λ e. absurd (answer_at-unauthorized (m.match_ (build_router own) r) s e),
            )
      | inr n ↦ rw (n, handle) (λ h. absurd (cc), λ e. refl)
    ]
      where
        presented :
            passes u s.cfg.api_token r.path r.authorization ≡ true
            → (o : Option Endpoint) → m.match_ (build_router own) r ≡ o
            → is_data (answer_at L w o s).1 ≡ true
            → Presents u s.cfg.api_token r.authorization
        presented y none h d = absurd (cc)
        presented y (some e) h d =
            elim ((passes_iff u s.cfg.api_token r.path r.authorization).0 y) [
              | inl open' ↦ absurd (given open')
              | inr rest ↦ elim rest [
                | inl outside ↦
                    let inside = guarded_path e h (sym (answer-is_data e s) ∙ d) in absurd (cc)
                | inr p ↦ p
              ]
            ]
