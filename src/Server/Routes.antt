-- ===== src/Server/Routes.antt =====
-- The routes of internal/server: what buildRouter and registerOperations register, in their order. huma's
-- own routes, which serve the API's description, are a parameter, and so is chi's matching of a
-- request against a route.
use mathlib.Core.List.{Memᴰ}
use s3_registry.Prelude.{
  ◌≡◌, ◌⊎◌, true, Option, none, some, List, [], ◌∷◌, ◌++◌, if◌then◌else◌, eqb,
}
use s3_registry.Text.{Str, codes, has_prefix}

pub data Endpoint : Type 0 where
  live ready status : Endpoint
  -- http.RedirectHandler, and where it leads
  redirect : Str → Endpoint
  list_tools list_versions resolve_version get_artifact : Endpoint
  -- a route of huma
  described : Str → Endpoint

-- `none` is a route for every method.
pub record Route : Type 0 where
  pub method : Option Str
  pub pattern : Str
  pub endpoint : Endpoint

abbrev pub get : Str → Endpoint → Route
get pattern endpoint = record {
  method = some (codes "GET");
  pattern = pattern;
  endpoint = endpoint;
}

-- the part of buildRouter before its last two calls
abbrev pub health_routes : List Route
health_routes =
    get (codes "/-/health/live") live
    ∷ get (codes "/-/health/ready") ready
    ∷ get (codes "/-/health/status") status
    ∷ record {
      method = none;
      pattern = codes "/healthz";
      endpoint = redirect (codes "/-/health/live");
    }
    ∷ record {
      method = none;
      pattern = codes "/readyz";
      endpoint = redirect (codes "/-/health/ready");
    }
    ∷ []

-- registerOperations
abbrev pub operations : List Route
operations =
    get (codes "/tools") list_tools
    ∷ get (codes "/tools/{tool}/versions") list_versions
    ∷ get (codes "/tools/{tool}/resolve") resolve_version
    ∷ get (codes "/tools/{tool}/versions/{version}/artifact") get_artifact
    ∷ []

-- buildRouter, with the routes that humachi.New adds
unfoldable pub build_router : List Route → List Route
build_router own = health_routes ++ own ++ operations

-- A request: the decoded path of its URL, the path as it was sent where that differs, and the header
-- Authorization, empty where it is missing.
pub record Request : Type 0 where
  pub method : Str
  pub path : Str
  pub raw_path : Str
  pub authorization : Str

-- A pattern up to its first parameter
unfoldable pub literal : Str → Str
literal [] = []
literal (c ∷ s) = let rest = literal s in if eqb c 123 then [] else c ∷ rest

pub record Mux : Type 0 where
  pub match_ : List Route → Request → Option Endpoint

-- What chi documents of a match: it is one of the routes, and the path, in the one form or the other,
-- begins with the pattern's text before its first parameter.
pub record IsMux (m : Mux) : Type 0 where
  pub matched :
      (routes : List Route) (r : Request) (e : Endpoint)
      → m.match_ routes r ≡ some e
      → (route : Route) × Memᴰ route routes
        × (route.endpoint ≡ e)
        × ((has_prefix r.path (literal route.pattern) ≡ true)
            ⊎ (has_prefix r.raw_path (literal route.pattern) ≡ true))
