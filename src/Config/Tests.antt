-- ===== src/Config/Tests.antt =====
-- The policy of two environments.
use rust_auth_example.Base.{true, false, Option, none, some, List, ◌≡◌, refl, codes, is_space}
use rust_auth_example.Scripts.Words.{Text}
use rust_auth_example.Config.{Env, api_origin, connect_src, security_policy}
use rust_auth_example.Config.Sources.{ConnectsTo}
use rust_auth_example.Config.Laws.{read_policy, policy_meant, security_policy_reads}

-- A URL parser that knows one address
abbrev origin_of : Text → Option Text
origin_of url = some (codes "https://api.example")

abbrev production : Env
production = record { api_url = some (codes "https://api.example/v1"); is_production = true }

config_runs :
    (connect_src (codes "https://api.example")
      ≡ codes "'self' https://api.example wss://api.example")
    × (security_policy origin_of (record { api_url = none; is_production = false })
        ≡ codes
            "default-src 'self'; script-src 'self' 'unsafe-inline' 'unsafe-eval'; style-src 'self' 'unsafe-inline'; img-src 'self' data:; font-src 'self'; connect-src 'self'; frame-ancestors 'none'; base-uri 'self'; form-action 'self'; object-src 'none'")
unfolding connect_src security_policy
config_runs = (refl, refl)

security_policy_reads_example :
    (connect : List Text) × ConnectsTo (codes "https://api.example") connect
    × (read_policy (security_policy origin_of production) ≡ policy_meant true connect)
unfolding api_origin is_space
security_policy_reads_example = security_policy_reads origin_of production refl
