-- ===== src/Gate/Laws.antt =====
-- The gate admits a protected page on a verified token of its own domain, and on nothing else.
use rust_auth_example.Base.{
  true, false, String, Option, none, some, ◌≡◌, refl, ◌↔◌, ◌⊎◌, ◌≢◌, Option-cases, Bool-cases, inl,
  inr, arith, eq_iff, starts_with, str_eq, sym, subst, starts_with_comparable, starts_with_trans,
  &&_left,
}
use rust_auth_example.Http.{Outcome, resolved}
use rust_auth_example.Gate.{
  Decoded, next, redirect, in_dashboard, in_platform, is_protected, is_platform, login_path_of,
  expected_type, has_type_iff, judge, decode_cookie, proxy,
}
use rust_auth_example.Gate.Layout.{shell, layout, layout_shell}

in_dashboard-is_platform : (path : String) → in_dashboard path ≡ true → is_platform path ≡ false
unfolding in_dashboard is_platform
in_dashboard-is_platform path h = elim (Bool-cases (starts_with path "/platform")) [
  | inr no_prefix ↦ no_prefix
  | inl p ↦ elim (Bool-cases (starts_with path "/dashboard/")) [
    | inl d ↦ elim (starts_with_comparable path "/dashboard/" "/platform" d p) [
      | inl e ↦ cc
      | inr e ↦ cc
    ]
    | inr n ↦
        (let e : path ≡ "/dashboard" = (eq_iff path "/dashboard").0 (rw n at h) in
          subst (λ t. starts_with t "/platform" ≡ false) (sym e) refl)
  ]
]

in_platform-is_platform : (path : String) → in_platform path ≡ true → is_platform path ≡ true
unfolding in_platform is_platform
in_platform-is_platform path h = elim (Bool-cases (str_eq path "/platform")) [
  | inl e ↦ subst (λ t. starts_with t "/platform" ≡ true) (sym ((eq_iff path "/platform").0 e)) refl
  | inr n ↦ starts_with_trans path "/platform/" "/platform" (&&_left _ _ (rw n at h)) refl
]

-- The domain of a protected page, with its login page and the type of its tokens
abbrev pub IsDomain : (path page type : String) → Type 0
IsDomain path page type =
    ((in_platform path ≡ true) × (page ≡ "/platform/login") × (type ≡ "platform"))
    ⊎ ((in_dashboard path ≡ true) × (page ≡ "/auth/login") × (type ≡ "dashboard"))

protected-IsDomain :
    (path : String)
    → is_protected path ≡ true
    → IsDomain path (login_path_of path) (expected_type path)
unfolding is_protected login_path_of expected_type
protected-IsDomain path h = elim (Bool-cases (in_platform path)) [
  | inl platform ↦ inl (
    platform,
    rw (in_platform-is_platform path platform) refl,
    rw (in_platform-is_platform path platform) refl,
  )
  | inr other ↦
      let dashboard : in_dashboard path ≡ true = ground arith in
      inr (
        dashboard,
        rw (in_dashboard-is_platform path dashboard) refl,
        rw (in_dashboard-is_platform path dashboard) refl,
      )
]

judge-next :
    (path : String) (o : Option Decoded)
    → judge path o ≡ next
    → (d : Decoded) × (o ≡ some d) × (d.is_valid ≡ true) × (d.type ≡ some (expected_type path))
unfolding judge
judge-next path none h = cc
judge-next path (some d) h =
    (d, refl, ground arith, (has_type_iff d.type (expected_type path)).0 (ground arith))

judge_admits :
    (path : String) (d : Decoded)
    → d.is_valid ≡ true
    → d.type ≡ some (expected_type path)
    → judge path (some d) ≡ next
unfolding judge
judge_admits path d v t = ground (arith, has_type_iff d.type (expected_type path))

module _ (verify : String → Outcome Decoded) where
  -- The cookie holds a token that verifies and carries this type.
  pub record Admits (type : String) (cookie : Option String) : Type 0 where
    pub token : String
    pub decoded : Decoded
    present : cookie ≡ some token
    pub verified : verify token ≡ resolved decoded
    pub valid : decoded.is_valid ≡ true
    pub typed : decoded.type ≡ some type

  decode_cookie-eq-some :
      (cookie : Option String) {d : Decoded}
      → decode_cookie verify cookie ≡ some d
      → (token : String) × (cookie ≡ some token) × (verify token ≡ resolved d)
  unfolding decode_cookie
  decode_cookie-eq-some none h = cc
  decode_cookie-eq-some (some token) h = (token, refl, ground arith)

  not_delegated :
      (cookie : Option String) (path : String)
      → proxy verify path cookie ≡ next
      → starts_with path "/api/auth/" ≡ false
  unfolding proxy
  not_delegated cookie path h = elim (Bool-cases (starts_with path "/api/auth/")) [
    | inl api ↦ cc (rw api at h)
    | inr other ↦ other
  ]

  decode_cookie-some :
      (token : String) (d : Decoded)
      → verify token ≡ resolved d
      → decode_cookie verify (some token) ≡ some d
  unfolding decode_cookie
  decode_cookie-some token d h = ground arith

  -- A protected page is let through exactly if the cookie holds a token which the verifier resolves
  -- as valid and whose type is that of the page's domain.
  pub proxy-eq-next_iff :
      (path : String) (cookie : Option String)
      → starts_with path "/api/auth/" ≡ false
      → is_protected path ≡ true
      → (proxy verify path cookie ≡ next) ↔ Admits (expected_type path) cookie
  unfolding proxy
  proxy-eq-next_iff path cookie a p =
      (λ h. judged (judge-next path (decode_cookie verify cookie) (ground arith)), λ h. admitted h)
    where
      judged :
          (d : Decoded) × (decode_cookie verify cookie ≡ some d)
            × (d.is_valid ≡ true)
            × (d.type ≡ some (expected_type path))
          → Admits (expected_type path) cookie
      judged (d, found, valid, typed) =
          let (token, present, verified) = decode_cookie-eq-some cookie found in
          record {
            token = token;
            decoded = d;
            present = present;
            verified = verified;
            valid = valid;
            typed = typed;
          }

      admitted : Admits (expected_type path) cookie → proxy verify path cookie ≡ next
      admitted h = ground (
        arith,
        has_type_iff h.decoded.type (expected_type path),
        decode_cookie-some h.token h.decoded h.verified,
        judge_admits path h.decoded h.valid h.typed,
      )

  -- A protected page that is not let through answers with a redirect: from a page of the platform to
  -- `/platform/login`, from one of the dashboard to `/auth/login`. Its reason is `wrong-domain` if the
  -- verifier resolved the token as valid and of another type than the page's domain has; without a
  -- cookie, on a rejection and on an invalid token there is no reason.
  pub proxy_fails_closed :
      (path : String) (cookie : Option String)
      → starts_with path "/api/auth/" ≡ false
      → is_protected path ≡ true
      → proxy verify path cookie ≢ next
      → (page : String) × (type : String) × IsDomain path page type
        × (((proxy verify path cookie ≡ redirect page none)
              × ((d : Decoded) → decode_cookie verify cookie ≡ some d → d.is_valid ≡ false))
            ⊎ ((proxy verify path cookie ≡ redirect page (some "wrong-domain"))
                × ((d : Decoded) × (decode_cookie verify cookie ≡ some d)
                    × (d.is_valid ≡ true)
                    × (d.type ≢ some type))))
  unfolding proxy judge
  proxy_fails_closed path cookie a p n =
      (login_path_of path, expected_type path, protected-IsDomain path p, refused path cookie a p n)
    where
      refused :
          (path : String) (cookie : Option String)
          → starts_with path "/api/auth/" ≡ false
          → is_protected path ≡ true
          → proxy verify path cookie ≢ next
          → ((proxy verify path cookie ≡ redirect (login_path_of path) none)
              × ((d : Decoded) → decode_cookie verify cookie ≡ some d → d.is_valid ≡ false))
            ⊎ ((proxy verify path cookie ≡ redirect (login_path_of path) (some "wrong-domain"))
                × ((d : Decoded) × (decode_cookie verify cookie ≡ some d)
                    × (d.is_valid ≡ true)
                    × (d.type ≢ some (expected_type path))))
      refused path cookie a p n = elim (Option-cases (decode_cookie verify cookie)) [
        | inl nothing ↦ inl (ground arith, λ d e. cc)
        | inr (d, found) ↦ elim (Bool-cases d.is_valid) [
          | inr bad ↦ inl (ground arith, λ d' e. ground arith)
          | inl good ↦ inr (
            ground (arith, has_type_iff d.type (expected_type path)),
            (d, found, good, ground (arith, has_type_iff d.type (expected_type path))),
          )
        ]
      ]

  -- A cookie that is let through to a dashboard page is never let through to a protected platform
  -- page, whatever the verifier answers.
  pub proxy_isolates :
      (dashboard platform : String) (cookie : Option String)
      → in_dashboard dashboard ≡ true
      → in_platform platform ≡ true
      → proxy verify dashboard cookie ≡ next
      → proxy verify platform cookie ≢ next
  unfolding is_protected expected_type
  proxy_isolates dashboard platform cookie d p h k =
      let tenant : Admits (expected_type dashboard) cookie =
        (proxy-eq-next_iff dashboard cookie (not_delegated cookie dashboard h) (ground arith)).0
          h in
      let admin : Admits (expected_type platform) cookie =
        (proxy-eq-next_iff platform cookie (not_delegated cookie platform k) (ground arith)).0 k in
      ground (
        arith,
        in_dashboard-is_platform dashboard d,
        in_platform-is_platform platform p,
        tenant.typed,
        tenant.present,
        tenant.verified,
        admin.typed,
        admin.present,
        admin.verified,
        eq_iff "platform" "dashboard",
      )

  -- The login page that a redirect leads to is itself let through, with any cookie, so that the gate
  -- never redirects in a loop.
  proxy-login_path :
      (path : String) (cookie : Option String) → proxy verify (login_path_of path) cookie ≡ next
  unfolding proxy login_path_of is_protected
  proxy-login_path path cookie = elim (Bool-cases (is_platform path)) [
    | inl e ↦ rw e refl
    | inr e ↦ rw e refl
  ]

-- If `decodeJwtToken` reads from a token what `verifyJwtToken` resolved as valid, then the layout
-- renders the shell for every protected platform page that the gate lets through.
pub layout-proxy :
    (verify decode : String → Outcome Decoded)
    → ((token : String) (d : Decoded)
        → verify token ≡ resolved d
        → d.is_valid ≡ true
        → decode token ≡ resolved d)
    → (path : String) (cookie : Option String) → in_platform path ≡ true
    → proxy verify path cookie ≡ next
    → layout decode cookie ≡ shell
unfolding is_protected expected_type
layout-proxy verify decode agree path cookie p h =
    let admin : Admits verify (expected_type path) cookie =
      (proxy-eq-next_iff verify path cookie (not_delegated verify cookie path h) (ground arith)).0
        h in
    rw admin.present (
      layout_shell decode admin.token admin.decoded
        (agree admin.token admin.decoded admin.verified admin.valid) admin.valid
        (ground (arith, in_platform-is_platform path p, admin.typed)))
