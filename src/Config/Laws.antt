-- ===== src/Config/Laws.antt =====
-- What a browser reads of the policy.
use rust_auth_example.Base.{
  ℕ, ◌==◌, Bool, true, false, not, ◌&&◌, &&_iff, Option, Option-cases, List, [], ◌∷◌, ◌++◌, map,
  ◌≡◌, ◌≢◌, refl, subst, ap, ◌∙◌, arith, All, every, every_weaken, every-append, inl, inr, codes,
  is_space, ap₂,
}
use rust_auth_example.Scripts.Words.{Text}
use rust_auth_example.Scripts.Patterns.{eat, split, trim, trim_end, skip_spaces, cons_head}
use rust_auth_example.Scripts.Patterns.Splits.{lacks, split-lacks, split-lacks_on, split-ne-nil}
use rust_auth_example.Config.{
  Env, api_origin, ws_origin, connect_src, script_src, directives, join_directives, security_policy,
}
use rust_auth_example.Config.Sources.{
  ConnectsTo, connect_sources, eat-append, connect_sources-ConnectsTo,
}

-- A browser reads a policy as directives between semicolons, without the space around them, and a
-- directive as words between spaces.
abbrev pub read_policy : Text → List (List Text)
read_policy policy = map (λ d. split 32 (trim d)) (split b';' policy)

-- The sources of the scripts of a page
abbrev pub script_sources : Bool → List Text
script_sources true = codes "'self'" ∷ codes "'unsafe-inline'" ∷ []
script_sources false = codes "'self'" ∷ codes "'unsafe-inline'" ∷ codes "'unsafe-eval'" ∷ []

-- The words of the policy that is meant
abbrev pub policy_with : (script connect : List Text) → List (List Text)
policy_with script connect =
    (codes "default-src" ∷ codes "'self'" ∷ [])
    ∷ script
    ∷ (codes "style-src" ∷ codes "'self'" ∷ codes "'unsafe-inline'" ∷ [])
    ∷ (codes "img-src" ∷ codes "'self'" ∷ codes "data:" ∷ [])
    ∷ (codes "font-src" ∷ codes "'self'" ∷ [])
    ∷ connect
    ∷ (codes "frame-ancestors" ∷ codes "'none'" ∷ [])
    ∷ (codes "base-uri" ∷ codes "'self'" ∷ [])
    ∷ (codes "form-action" ∷ codes "'self'" ∷ [])
    ∷ (codes "object-src" ∷ codes "'none'" ∷ [])
    ∷ []

abbrev pub policy_meant : Bool → (connect : List Text) → List (List Text)
policy_meant is_production connect =
    policy_with (codes "script-src" ∷ script_sources is_production) (codes "connect-src" ∷ connect)

-- No character of an origin is white space or a semicolon.
abbrev pub is_origin_char : ℕ → Bool
is_origin_char c = not (is_space c) && not (c == b';')

abbrev pub IsOrigin : Text → Type 0
IsOrigin origin = every is_origin_char origin ≡ true

-- A directive that stands alone between semicolons
abbrev IsDirective : Text → Type 0
IsDirective d = (lacks b';' d ≡ true) × (trim d ≡ d)

trim-space : (d : Text) → trim (32 ∷ d) ≡ trim d
unfolding trim skip_spaces is_space
trim-space d = refl

trimmed_space : (parts : List Text) → parts ≢ [] → map trim (cons_head 32 parts) ≡ map trim parts
trimmed_space [] n = absurd (n refl)
trimmed_space (p ∷ ps) n = ap (λ t. t ∷ map trim ps) (trim-space p)

split-space : (s : Text) → split b';' (32 ∷ s) ≡ cons_head 32 (split b';' s)
unfolding split
split-space s = refl

trimmed-join :
    (d : Text) (ds : List Text)
    → All IsDirective (d ∷ ds)
    → map trim (split b';' (join_directives (d ∷ ds))) ≡ d ∷ ds
unfolding join_directives
trimmed-join d [] h = rw (split-lacks b';' d h.0.0, h.0.1) refl
trimmed-join d (e ∷ ds) h =
    rw
      (
        split-lacks_on b';' d (32 ∷ join_directives (e ∷ ds)) h.0.0,
        h.0.1,
        split-space (join_directives (e ∷ ds)),
        trimmed_space (split b';' (join_directives (e ∷ ds)))
            (split-ne-nil b';' (join_directives (e ∷ ds))),
        trimmed-join e ds h.1,
      )
      refl

read_policy-map : (s : Text) → read_policy s ≡ map (split 32) (map trim (split b';' s))
read_policy-map s = go (split b';' s)
  where
    go : (parts : List Text) → map (λ d. split 32 (trim d)) parts ≡ map (split 32) (map trim parts)
    go [] = refl
    go (p ∷ ps) = ap (λ l. split 32 (trim p) ∷ l) (go ps)

IsOrigin-lacks_semicolon : (s : Text) → IsOrigin s → lacks b';' s ≡ true
unfolding lacks
IsOrigin-lacks_semicolon s h = every_weaken s (λ c k. ground arith) h

IsOrigin-lacks_space : (s : Text) → IsOrigin s → lacks 32 s ≡ true
unfolding lacks is_space
IsOrigin-lacks_space s h = every_weaken s (λ c k. ground arith) h

ws_origin-IsOrigin : (origin : Text) → IsOrigin origin → IsOrigin (ws_origin origin)
unfolding ws_origin is_space
ws_origin-IsOrigin origin h = elim (Option-cases (eat (codes "http") origin)) [
  | inl other ↦ rw other h
  | inr (rest, there) ↦ rw there (subst IsOrigin (eat-append (codes "http") origin rest there) h)
]

ws_origin-ne-nil : (c : ℕ) (origin : Text) → ws_origin (c ∷ origin) ≢ []
unfolding ws_origin
ws_origin-ne-nil c origin h = elim (Option-cases (eat (codes "http") (c ∷ origin))) [
  | inl other ↦ let no : (c ∷ origin) ≡ [] = rw (ws_origin, other) at h in cc
  | inr (rest, there) ↦ let no : (codes "ws" ++ rest) ≡ [] = rw (ws_origin, there) at h in cc
]

trim_end-keep : (c : ℕ) (s : Text) → trim_end s ≡ s → s ≢ [] → trim_end (c ∷ s) ≡ c ∷ s
unfolding trim_end
trim_end-keep c [] h n = absurd (n refl)
trim_end-keep c (d ∷ s) h n = rw h refl

append-ne-nil : (s t : Text) → t ≢ [] → (s ++ t) ≢ []
append-ne-nil [] t n h = n h
append-ne-nil (c ∷ s) t n h = cc

trim_end-append : (s t : Text) → trim_end t ≡ t → t ≢ [] → trim_end (s ++ t) ≡ s ++ t
trim_end-append [] t h n = h
trim_end-append (c ∷ s) t h n =
    trim_end-keep c (s ++ t) (trim_end-append s t h n) (append-ne-nil s t n)

trim_end-IsOrigin : (s : Text) → IsOrigin s → trim_end s ≡ s
unfolding trim_end
trim_end-IsOrigin [] h = refl
trim_end-IsOrigin (c ∷ []) h = ground arith
trim_end-IsOrigin (c ∷ d ∷ s) h =
    let (first, rest) = (&&_iff (is_origin_char c) (every is_origin_char (d ∷ s))).0 h in
    trim_end-keep c (d ∷ s) (trim_end-IsOrigin (d ∷ s) rest) (λ n. cc)

connect-IsDirective :
    (origin : Text) → IsOrigin origin → IsDirective (codes "connect-src " ++ connect_src origin)
unfolding connect_src lacks trim skip_spaces trim_end is_space
connect-IsDirective [] h = (refl, refl)
connect-IsDirective (c ∷ origin) h =
    let ws = ws_origin (c ∷ origin) in
    let good = ws_origin-IsOrigin (c ∷ origin) h in
    (
      rw
          (
            every-append (λ d. not (d == b';')) (c ∷ origin) (32 ∷ ws),
            IsOrigin-lacks_semicolon (c ∷ origin) h,
            IsOrigin-lacks_semicolon ws good,
          )
          refl,
      trim_end-append (codes "connect-src 'self' ") ((c ∷ origin) ++ (32 ∷ ws))
          (trim_end-append (c ∷ origin) (32 ∷ ws)
            (trim_end-keep 32 ws (trim_end-IsOrigin ws good) (ws_origin-ne-nil c origin)) (λ n. cc))
          (append-ne-nil (c ∷ origin) (32 ∷ ws) (λ n. cc)),
    )

split-origins :
    (origin ws : Text)
    → IsOrigin origin
    → IsOrigin ws
    → split 32 (origin ++ (32 ∷ ws)) ≡ origin ∷ ws ∷ []
split-origins origin ws h k =
    split-lacks_on 32 origin ws (IsOrigin-lacks_space origin h)
    ∙ ap (λ l. origin ∷ l) (split-lacks 32 ws (IsOrigin-lacks_space ws k))

split-connect :
    (origin : Text)
    → IsOrigin origin
    → split 32 (codes "connect-src " ++ connect_src origin)
      ≡ codes "connect-src" ∷ connect_sources origin
unfolding connect_src split
split-connect [] h = refl
split-connect (c ∷ origin) h =
    ap (λ l. codes "connect-src" ∷ codes "'self'" ∷ l)
      (split-origins (c ∷ origin) (ws_origin (c ∷ origin)) h (ws_origin-IsOrigin (c ∷ origin) h))

script-IsDirective :
    (is_production : Bool) → IsDirective (codes "script-src " ++ script_src is_production)
unfolding script_src lacks trim skip_spaces trim_end is_space
script-IsDirective true = (refl, refl)
script-IsDirective false = (refl, refl)

directives-AreDirectives :
    (is_production : Bool) (origin : Text)
    → IsOrigin origin
    → All IsDirective (directives is_production origin)
unfolding directives lacks trim skip_spaces trim_end is_space
directives-AreDirectives is_production origin h =
    let script = script-IsDirective is_production in
    let connect = connect-IsDirective origin h in
    (
      (refl, refl),
      (
        script,
        (
          (refl, refl),
          (
            (refl, refl),
            (
              (refl, refl),
              (connect, ((refl, refl), ((refl, refl), ((refl, refl), ((refl, refl), tt))))),
            ),
          ),
        ),
      ),
    )

split-script :
    (is_production : Bool)
    → split 32 (codes "script-src " ++ script_src is_production)
      ≡ codes "script-src" ∷ script_sources is_production
unfolding script_src split
split-script true = refl
split-script false = refl

joined_directives :
    (is_production : Bool) (origin : Text)
    → IsOrigin origin
    → map trim (split b';' (join_directives (directives is_production origin)))
      ≡ directives is_production origin
unfolding directives
joined_directives is_production origin h =
    trimmed-join _ _ (directives-AreDirectives is_production origin h)

directives_read :
    (is_production : Bool) (origin : Text)
    → IsOrigin origin
    → map (split 32) (directives is_production origin)
      ≡ policy_meant is_production (connect_sources origin)
unfolding directives split
directives_read is_production origin h =
    ap₂ policy_with (split-script is_production) (split-connect origin h)

-- A browser reads of the policy the directives that are meant, in production and in development,
-- whatever `new URL` makes of the address of the API, as long as an origin has no white space and no
-- semicolon: scripts are evaluated in development only, and the page connects to itself and, if there
-- is an API, to its origin and to that origin with `ws` for an `http` that it begins with.
pub security_policy_reads :
    (origin_of : Text → Option Text) (env : Env)
    → IsOrigin (api_origin origin_of env.api_url)
    → (connect : List Text) × ConnectsTo (api_origin origin_of env.api_url) connect
      × (read_policy (security_policy origin_of env) ≡ policy_meant env.is_production connect)
unfolding security_policy
security_policy_reads origin_of env h =
    let origin = api_origin origin_of env.api_url in
    (
      connect_sources origin,
      connect_sources-ConnectsTo origin,
      read_policy-map (join_directives (directives env.is_production origin))
          ∙ ap (map (split 32)) (joined_directives env.is_production origin h)
          ∙ directives_read env.is_production origin h,
    )
