-- ===== src/Pages/Login/Flow.antt =====
-- The sign-in with a second factor, over two pages: `onSubmit` of the login page, the store of the
-- pending challenge, and the page of the challenge.
use rust_auth_example.Base.{
  ℕ, suc, String, some, List, ◌∷◌, ◌≡◌, arith, inl, inr, All, subst, sym, ◌∙◌,
}
use rust_auth_example.Http.{resolved}
use rust_auth_example.Pages.{push}
use rust_auth_example.Pages.Stores.{Slot}
use rust_auth_example.Pages.Login.{LoginResult, Login, challenge_of, settled, step}
use rust_auth_example.Pages.Login.Laws.{step-settled-Led}
use rust_auth_example.Pages.MfaChallenge.{Event, mount, run, screen, session_expired}
use rust_auth_example.Pages.MfaChallenge.Laws.{run-mount-IsGuarded, mount_once}

-- The challenge page that is mounted on a slot that holds `token`, over the events `es`.
sent_from-Own :
    (slot : Slot) (token : String) (es : List Event)
    → slot ≡ some token
    → All (λ r. some (r.0) ≡ some token) (run es (mount slot).0).sent
      × (screen (mount (mount slot).1).0 ≡ session_expired)
sent_from-Own slot token es held =
    subst
      (λ held_slot.
        All (λ r. some (r.0) ≡ some token) (run es (mount held_slot).0).sent
        × (screen (mount (mount held_slot).1).0 ≡ session_expired))
      (sym held) ((run-mount-IsGuarded (some token) es).0.own, mount_once token)

-- A login that asks for a second factor, settled on a page that called `login`: the page goes to the
-- challenge page, which sends codes with the token of this login only, whatever happens on it, and
-- which a second mount finds without a token, so that it shows the expired session.
pub settled_challenges :
    (r : LoginResult) (token : String) (others : ℕ) (s : Login) (es : List Event)
    → challenge_of r ≡ some token
    → s.in_flight ≡ suc others
    → ((step (settled (resolved r)) s).navigations ≡ push "/auth/mfa-challenge" ∷ s.navigations)
      × All
          (λ q. some (q.0) ≡ some token)
          (run es (mount (step (settled (resolved r)) s).slot).0).sent
      × (screen (mount (mount (step (settled (resolved r)) s).slot).1).0 ≡ session_expired)
settled_challenges r token others s es asked flying =
    elim (step-settled-Led (resolved r) others s flying).0.1 [
      | inl (plain, kept, gone) ↦ ground arith
      | inr (other, named, held, gone) ↦
          let (own, once) =
            sent_from-Own (step (settled (resolved r)) s).slot token es
              (held ∙ sym named ∙ asked) in
          (gone, own, once)
    ]
