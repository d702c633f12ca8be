-- ===== src/Gate/Tests.antt =====
-- Runs of the gate and of the layout behind it.
use rust_auth_example.Base.{
  true, String, none, some, ◌≡◌, refl, ◌↔◌, ◌⊎◌, ◌≢◌, str_eq, if◌then◌else◌, false,
}
use rust_auth_example.Http.{other_error, Outcome, resolved, rejected}
use rust_auth_example.Gate.{
  Decoded, next, delegated, redirect, in_dashboard, in_platform, is_protected, login_path_of,
  decode_cookie, proxy, judge, expected_type,
}
use rust_auth_example.Gate.Layout.{shell, to_login, layout}
use rust_auth_example.Gate.Laws.{
  Admits, IsDomain, proxy-eq-next_iff, proxy_fails_closed, proxy_isolates, layout-proxy,
}

-- A verifier that knows three tokens: one of the dashboard, one of the platform, and one that has
-- expired.
abbrev known_tokens : String → Outcome Decoded
known_tokens token =
    if str_eq token "tenant"
    then resolved (record { is_valid = true; type = some "dashboard" })
    else (if str_eq token "admin"
        then resolved (record { is_valid = true; type = some "platform" })
        else rejected other_error)

proxy_runs :
    (proxy known_tokens "/dashboard/audit" (some "tenant") ≡ next)
    × (proxy known_tokens "/platform/security" (some "tenant")
        ≡ redirect "/platform/login" (some "wrong-domain"))
    × (proxy known_tokens "/platform/security" none ≡ redirect "/platform/login" none)
    × (proxy known_tokens "/dashboards" none ≡ next)
    × (proxy known_tokens "/platform/loginx" none ≡ redirect "/platform/login" none)
    × (proxy known_tokens "/api/auth/me" none ≡ delegated)
unfolding proxy is_protected judge decode_cookie expected_type login_path_of
proxy_runs = (refl, refl, refl, refl, refl, refl)

layout_runs :
    (layout known_tokens (some "tenant") ≡ to_login "wrong-domain")
    × (layout known_tokens (some "old") ≡ to_login "session-expired")
unfolding layout
layout_runs = (refl, refl)

proxy-eq-next_iff_example :
    (proxy known_tokens "/platform" (some "admin") ≡ next)
    ↔ Admits known_tokens "platform" (some "admin")
unfolding proxy is_protected expected_type
proxy-eq-next_iff_example = proxy-eq-next_iff known_tokens "/platform" (some "admin") refl refl

proxy_fails_closed_example :
    (page : String) × (type : String) × IsDomain "/platform" page type
    × (((proxy known_tokens "/platform" (some "tenant") ≡ redirect page none)
          × ((d : Decoded)
              → decode_cookie known_tokens (some "tenant") ≡ some d
              → d.is_valid ≡ false))
        ⊎ ((proxy known_tokens "/platform" (some "tenant") ≡ redirect page (some "wrong-domain"))
            × ((d : Decoded) × (decode_cookie known_tokens (some "tenant") ≡ some d)
                × (d.is_valid ≡ true)
                × (d.type ≢ some type))))
unfolding proxy is_protected judge decode_cookie expected_type
proxy_fails_closed_example =
    proxy_fails_closed known_tokens "/platform" (some "tenant") refl refl (λ e. cc)

proxy_isolates_example : proxy known_tokens "/platform/security" (some "tenant") ≢ next
unfolding proxy in_dashboard in_platform is_protected judge decode_cookie expected_type
proxy_isolates_example =
    proxy_isolates known_tokens "/dashboard" "/platform/security" (some "tenant") refl refl refl

layout-proxy_example : layout known_tokens (some "admin") ≡ shell
unfolding proxy in_platform is_protected judge decode_cookie expected_type
layout-proxy_example =
    layout-proxy known_tokens known_tokens (λ token d e v. e) "/platform/security" (some "admin")
      refl refl
