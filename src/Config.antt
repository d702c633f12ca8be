-- ===== src/Config.antt =====
-- apps/web/next.config.mjs: the headers of every page of the console.
pub mod Sources
pub mod Laws
mod Tests
use rust_auth_example.Base.{
  Bool, true, false, Option, none, some, List, [], ◌∷◌, ◌++◌, codes, if◌then◌else◌,
}
use rust_auth_example.Scripts.Words.{Text}
use rust_auth_example.Scripts.Patterns.{eat}

-- `NEXT_PUBLIC_API_URL`, and whether `NODE_ENV` is `production`
pub record Env : Type 0 where
  pub api_url : Option Text
  pub is_production : Bool

-- `_apiOrigin`: `origin_of` is `new URL(url).origin`, with none where the constructor throws.
unfoldable pub api_origin : (Text → Option Text) → Option Text → Text
api_origin origin_of none = []
api_origin origin_of (some []) = []
api_origin origin_of (some (c ∷ url)) = elim (origin_of (c ∷ url)) [
  | none ↦ []
  | some origin ↦ origin
]

-- `_apiOrigin.replace(/^http/, 'ws')`
unfoldable pub ws_origin : Text → Text
unfolding eat
ws_origin origin = elim (eat (codes "http") origin) [
  | none ↦ origin
  | some rest ↦ codes "ws" ++ rest
]

-- `_connectSrc`
unfoldable pub connect_src : Text → Text
unfolding ws_origin
connect_src [] = codes "'self'"
connect_src (c ∷ origin) =
    codes "'self' " ++ ((c ∷ origin) ++ (codes " " ++ ws_origin (c ∷ origin)))

-- `_scriptSrc`
unfoldable pub script_src : Bool → Text
script_src true = codes "'self' 'unsafe-inline'"
script_src false = codes "'self' 'unsafe-inline' 'unsafe-eval'"

unfoldable pub directives : Bool → Text → List Text
unfolding connect_src script_src
directives is_production origin =
    codes "default-src 'self'"
    ∷ (codes "script-src " ++ script_src is_production)
    ∷ codes "style-src 'self' 'unsafe-inline'"
    ∷ codes "img-src 'self' data:"
    ∷ codes "font-src 'self'"
    ∷ (codes "connect-src " ++ connect_src origin)
    ∷ codes "frame-ancestors 'none'"
    ∷ codes "base-uri 'self'"
    ∷ codes "form-action 'self'"
    ∷ codes "object-src 'none'"
    ∷ []

-- `list.join('; ')`
unfoldable pub join_directives : List Text → Text
join_directives [] = []
join_directives (d ∷ []) = d
join_directives (d ∷ e ∷ ds) = d ++ (b';' ∷ 32 ∷ join_directives (e ∷ ds))

-- The value of `Content-Security-Policy`
unfoldable pub security_policy : (Text → Option Text) → Env → Text
unfolding api_origin directives join_directives
security_policy origin_of env =
    join_directives (directives env.is_production (api_origin origin_of env.api_url))

-- `headers()`, for the source `/(.*)`
unfoldable pub headers : (Text → Option Text) → Env → List (Text × Text)
unfolding security_policy
headers origin_of env =
    (codes "X-Frame-Options", codes "DENY")
    ∷ (codes "X-Content-Type-Options", codes "nosniff")
    ∷ (codes "Referrer-Policy", codes "strict-origin-when-cross-origin")
    ∷ (codes "Strict-Transport-Security", codes "max-age=31536000; includeSubDomains")
    ∷ (codes "Content-Security-Policy", security_policy origin_of env)
    ∷ []
