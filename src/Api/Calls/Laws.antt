-- ===== src/Api/Calls/Laws.antt =====
-- What the wrappers send and resolve to.
use rust_auth_example.Base.{
  ℕ, true, String, Option, none, some, List, [], ◌∷◌, ◌≡◌, ◌↔◌, refl, ◌∙◌, arith, ap,
}
use rust_auth_example.Json.{Json, null, bool, num, str, arr, obj, Elems, nil, cons, Fields, lookup}
use rust_auth_example.Http.{Request, Response, AuthClientError, Outcome, resolved, >>=-eq-resolved}
use rust_auth_example.Api.{ErrorResponse, api_fetch, api_json}
use rust_auth_example.Api.Laws.{api_fetch-eq-resolved_iff, api_json-eq-resolved_iff}
use rust_auth_example.Api.Calls.{
  Routes, Call, Result, WireInfo, request_of, send, send_and_read, call, read, sessions,
  list_sessions, map_elems, map_value, property, session_info, mfa_setup, mfa_verify_enable,
  mfa_disable, mfa_regenerate_recovery_codes, revoke_session, revoke_all_other_sessions,
  create_invitation, list_accepted_invitations, mint_ws_ticket, fetch_audit_page,
  fetch_audit_aggregate,
}

-- Each element of the array reads as the value that stands at its place, and there are as many.
abbrev Reads : (Json → Outcome WireInfo) → Elems → List WireInfo → Type 0
Reads f nil [] = Unit
Reads f nil (a ∷ rest) = ⊥
Reads f (cons v vs) [] = ⊥
Reads f (cons v vs) (a ∷ rest) = (f v ≡ resolved a) × Reads f vs rest

map_elems-eq-resolved :
    (f : Json → Outcome WireInfo) (vs : Elems) (out : List WireInfo)
    → map_elems f vs ≡ resolved out
    → Reads f vs out
unfolding map_elems
map_elems-eq-resolved f nil [] h = tt
map_elems-eq-resolved f nil (a ∷ rest) h = cc
map_elems-eq-resolved f (cons v vs) [] h =
    let (x, e, k) = >>=-eq-resolved (f v) _ h in
    let (xs, d, l) = >>=-eq-resolved (map_elems f vs) _ k in cc
map_elems-eq-resolved f (cons v vs) (a ∷ rest) h =
    let (x, e, k) = >>=-eq-resolved (f v) _ h in
    let (xs, d, l) = >>=-eq-resolved (map_elems f vs) _ k in
    let same : (x ∷ xs) ≡ (a ∷ rest) = ground arith in
    (ground arith, map_elems-eq-resolved f vs rest (ground arith))

map_elems-Reads :
    (f : Json → Outcome WireInfo) (vs : Elems) (out : List WireInfo)
    → Reads f vs out
    → map_elems f vs ≡ resolved out
unfolding map_elems
map_elems-Reads f nil [] h = refl
map_elems-Reads f nil (a ∷ rest) h = elim h [ ]
map_elems-Reads f (cons v vs) [] h = elim h [ ]
map_elems-Reads f (cons v vs) (a ∷ rest) h = rw (h.0, map_elems-Reads f vs rest h.1) refl

property-eq-resolved :
    (key : String) (body v : Json)
    → property key body ≡ resolved (some v)
    → (fs : Fields) × (body ≡ obj fs) × (lookup key fs ≡ some v)
unfolding property
property-eq-resolved key (obj fs) v h = (fs, refl, ground arith)
property-eq-resolved key null v h = cc
property-eq-resolved key (bool b) v h = cc
property-eq-resolved key (num n) v h = cc
property-eq-resolved key (str s) v h = cc
property-eq-resolved key (arr vs) v h = cc

map_value-eq-resolved :
    (f : Json → Outcome WireInfo) (list : Option Json) (out : List WireInfo)
    → map_value f list ≡ resolved out
    → (vs : Elems) × (list ≡ some (arr vs)) × (map_elems f vs ≡ resolved out)
unfolding map_value
map_value-eq-resolved f (some (arr vs)) out h = (vs, refl, h)
map_value-eq-resolved f (some null) out h = cc
map_value-eq-resolved f (some (bool b)) out h = cc
map_value-eq-resolved f (some (num n)) out h = cc
map_value-eq-resolved f (some (str s)) out h = cc
map_value-eq-resolved f (some (obj fs)) out h = cc
map_value-eq-resolved f none out h = cc

module _ (routes : Routes) (encode : String → String) (query_text : List (String × String) → String)
    (to_iso : Option Json → Outcome String)
    (new_error : String → ℕ → Option ErrorResponse → AuthClientError)
    (auth_fetch : Request → Outcome Response) where
  abbrev Answered : Request → Type 0
  Answered req = (res : Response) × (auth_fetch req ≡ resolved res) × (res.is_ok ≡ true)

  send-Answered :
      (c : Call) (r : Result)
      → send routes encode query_text to_iso new_error auth_fetch c ≡ resolved r
      → Answered (request_of routes encode query_text c)
  unfolding send
  send-Answered c r h =
      let (res, e, k) =
        >>=-eq-resolved (api_fetch new_error auth_fetch (request_of routes encode query_text c)) _
          h in
      let (sent, good) =
        (api_fetch-eq-resolved_iff new_error auth_fetch (request_of routes encode query_text c)
            res).0
          e in
      (res, sent, good)

  send_and_read-Answered :
      (c : Call) (r : Result)
      → send_and_read routes encode query_text to_iso new_error auth_fetch c ≡ resolved r
      → Answered (request_of routes encode query_text c)
  unfolding send_and_read
  send_and_read-Answered c r h =
      let (v, e, k) =
        >>=-eq-resolved (api_json new_error auth_fetch (request_of routes encode query_text c)) _
          h in
      let (res, sent, good, body) =
        (api_json-eq-resolved_iff new_error auth_fetch (request_of routes encode query_text c) v).0
          e in
      (res, sent, good)

  -- A wrapper resolves only if its one request was answered by an ok response.
  call-eq-resolved :
      (c : Call) (r : Result)
      → call routes encode query_text to_iso new_error auth_fetch c ≡ resolved r
      → (res : Response) × (auth_fetch (request_of routes encode query_text c) ≡ resolved res)
        × (res.is_ok ≡ true)
  unfolding call
  call-eq-resolved mfa_setup r h = send_and_read-Answered mfa_setup r h
  call-eq-resolved (mfa_verify_enable code) r h = send-Answered (mfa_verify_enable code) r h
  call-eq-resolved (mfa_disable code) r h = send-Answered (mfa_disable code) r h
  call-eq-resolved (mfa_regenerate_recovery_codes code) r h =
      send_and_read-Answered (mfa_regenerate_recovery_codes code) r h
  call-eq-resolved list_sessions r h = send_and_read-Answered list_sessions r h
  call-eq-resolved (revoke_session id) r h = send-Answered (revoke_session id) r h
  call-eq-resolved revoke_all_other_sessions r h = send-Answered revoke_all_other_sessions r h
  call-eq-resolved (create_invitation email role name) r h =
      send-Answered (create_invitation email role name) r h
  call-eq-resolved list_accepted_invitations r h =
      send_and_read-Answered list_accepted_invitations r h
  call-eq-resolved mint_ws_ticket r h = send_and_read-Answered mint_ws_ticket r h
  call-eq-resolved (fetch_audit_page query) r h =
      send_and_read-Answered (fetch_audit_page query) r h
  call-eq-resolved fetch_audit_aggregate r h = send_and_read-Answered fetch_audit_aggregate r h

  read_sessions_iff :
      (body : Json) (out : List WireInfo)
      → (read routes encode query_text to_iso new_error auth_fetch list_sessions body
          ≡ resolved (sessions out))
        ↔ ((fs : Fields) × (vs : Elems) × (body ≡ obj fs)
            × (lookup "sessions" fs ≡ some (arr vs))
            × Reads (session_info to_iso) vs out)
  unfolding read property map_value
  read_sessions_iff body out = (
    λ h.
        (let (list, p, rest) = >>=-eq-resolved (property "sessions" body) _ h in
          let (infos, m, last) = >>=-eq-resolved (map_value (session_info to_iso) list) _ rest in
          let (vs, q, reads) = map_value-eq-resolved (session_info to_iso) list infos m in
          let (fs, b, l) = property-eq-resolved "sessions" body (arr vs) (p ∙ ap resolved q) in
          let same : infos ≡ out = ground arith in
          (fs, vs, b, l, map_elems-eq-resolved (session_info to_iso) vs out (rw same at reads))),
    λ w. rw (w.2, w.3, map_elems-Reads (session_info to_iso) w.1 out w.4) refl,
  )

  -- `listSessions` resolves with a list exactly if its one request was answered by an ok response whose
  -- body is an object with an array as `sessions`, each element of which reads as the session that
  -- stands at its place: none is dropped, added or moved, and one that is `null` or whose time is
  -- no date makes the whole call reject.
  list_sessions-eq-resolved_iff :
      (out : List WireInfo)
      → (call routes encode query_text to_iso new_error auth_fetch list_sessions
          ≡ resolved (sessions out))
        ↔ ((res : Response) × (fs : Fields) × (vs : Elems) × (auth_fetch
                (request_of routes encode query_text list_sessions)
              ≡ resolved res)
            × (res.is_ok ≡ true)
            × (res.body ≡ some (obj fs))
            × (lookup "sessions" fs ≡ some (arr vs))
            × Reads (session_info to_iso) vs out)
  unfolding call send_and_read
  list_sessions-eq-resolved_iff out =
      let req = request_of routes encode query_text list_sessions in
      (
        λ h.
            (let (v, e, k) = >>=-eq-resolved (api_json new_error auth_fetch req) _ h in
              let (res, sent, good, body) =
                (api_json-eq-resolved_iff new_error auth_fetch req v).0 e in
              let (fs, vs, b, l, reads) = (read_sessions_iff v out).0 k in
              (res, fs, vs, sent, good, body ∙ ap some b, l, reads)),
        λ (res, fs, vs, sent, good, body, l, reads).
            rw
              ((api_json-eq-resolved_iff new_error auth_fetch req (obj fs)).1
                (res, sent, good, body))
              ((read_sessions_iff (obj fs) out).1 (fs, vs, refl, l, reads)),
      )
