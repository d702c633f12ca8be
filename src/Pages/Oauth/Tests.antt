-- ===== src/Pages/Oauth/Tests.antt =====
-- The OAuth panel at concrete addresses.
use rust_auth_example.Base.{none, some, ◌≡◌, ◌↔◌, refl, has}
use mathlib.Core.List.{Memᴰ}
use rust_auth_example.ErrorMessages.{auth_error, no_banner}
use rust_auth_example.Pages.Oauth.{CallbackTrace, decisions, branches, parse_callback_trace, panel}
use rust_auth_example.Pages.Oauth.Laws.{parse_callback_trace_iff}

abbrev linked : CallbackTrace
linked = record { decision = "linked"; branch = "redirect" }

panel_runs :
    ((panel (λ t. t) (some "true") none none (some "linked") (some "redirect") none).initiate
      ≡ some "/auth/oauth/google?tenantId=acme")
    × ((panel (λ t. t) (some "true") none none (some "linked") (some "redirect") none).trace
        ≡ some (some "Linked to an existing user", some "Redirect"))
    × ((panel (λ t. t) none none none (some "forged") (some "redirect") none).trace ≡ none)
    × ((panel (λ t. t) none none none none none none).banner ≡ no_banner)
unfolding panel has auth_error
panel_runs = (refl, refl, refl, refl)

parse_callback_trace_iff_example :
    (parse_callback_trace (some "linked") (some "redirect") ≡ some linked) ↔ (
      (some "linked" ≡ some linked.decision)
      × (some "redirect" ≡ some linked.branch)
      × Memᴰ linked.decision decisions
      × Memᴰ linked.branch branches)
parse_callback_trace_iff_example = parse_callback_trace_iff (some "linked") (some "redirect") linked
