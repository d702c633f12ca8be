-- ===== src/Lib.antt =====
-- A model of the web console of rust-auth-example, the Next.js application apps/web, with theorems
-- about what it does.
--
-- The console has an edge gate before its pages, a client of the tenant API and one of the platform
-- API, pages that sign a visitor in and out and manage a second factor, two widgets that these pages
-- share, and panels for operators: the audit log and the Trigger Center. Paths below are from
-- apps/web.
--
-- - Gate: proxy.ts. `proxy` is the gate over the path and the access cookie; `judge` is what follows
--   the verification of the token. Gate/Layout is app/platform/(protected)/layout.tsx, the check on
--   the server behind it. The answers of `verifyJwtToken` and `decodeJwtToken` are parameters.
-- - Shell: the links of components/shell/Sidebar.tsx and components/platform/PlatformShell.tsx.
--   Shell/Frame is components/shell/AppShell.tsx with two controls of its topbar.
-- - Json, Http: JSON values, requests, responses, settled promises and the errors that the console
--   catches. A number of JSON is kept as a bit pattern, since the console passes numbers on.
-- - Api: lib/api.ts. Platform: lib/platform-client.ts, whose calls are the constructors of `Call`.
--   Both take `fetch` and the constructor of `AuthClientError` as parameters. Api/Calls is the
--   wrappers of lib over Api: mfa-api.ts, sessions-api.ts, invitations-api.ts, ws-ticket.ts,
--   audit-api.ts and audit-aggregate.ts.
-- - ErrorMessages: lib/error-messages.ts with its table, and components/auth/auth-error.tsx.
-- - Redact: `redactSecrets` of lib/trigger-actions.ts and `redactValue`, `valueContainsSecret` of
--   components/audit/AuditTable.tsx; Redact/Keys is its regular expression as a matcher.
-- - Trigger: the nine actions of lib/trigger-actions.ts, which show what Redact left. Trigger/Card is
--   components/trigger/TriggerCard.tsx on app/(dashboard)/dashboard/trigger/page.tsx, which sets the
--   facets of the audit page; Trigger/Card/Wiring has the action that each card fires.
-- - Diagnostics: app/api/diagnostics/inspect-token/route.ts; Inspector and Matrix are the parts of
--   components/account/DiagnosticsMatrix.tsx that ask it and the API.
-- - Mfa: the copy button and the drawing of components/mfa. Alerts: the sockets of
--   hooks/use-new-session-alerts.ts.
-- - Otp, Expiry: components/auth/otp-input.tsx and expiry-pill.tsx. The texts of the cells are lists
--   of code units, the times natural numbers of milliseconds.
-- - Audit: AuditTable.tsx, with facets, window, drawer and pills; Audit/Tail is
--   hooks/use-audit-tail.ts, and Audit/Page the page over both with lib/audit-pivot.ts.
-- - Pages: Stores is lib/mfa-challenge-store.ts and lib/reset-flow-store.ts; Tenant is the reading of
--   `?tenant=`; ForgotPassword, VerifyEmail, MfaChallenge, Login and Forms are pages of
--   app/(public)/auth, Forms those of the reset, the registration and the invitation; PlatformLogin
--   is app/platform/login/page.tsx; Login/Flow is the sign-in over Login, Stores and MfaChallenge;
--   Security, Sessions, Invitations and Oauth are pages of app/(dashboard)/dashboard, Overview is
--   app/(dashboard)/page.tsx and Overview/Tiles its tiles; PlatformSecurity, PlatformSessions and
--   PlatformUsers are pages of app/platform/(protected). Sessions/Table is
--   components/sessions/SessionsTable.tsx.
--
-- - Config is next.config.mjs, Shell/Badge components/controls/SessionBadge.tsx, Pages/Account the
--   page of the account, and Mfa/Download the download of the recovery codes. Pages/Forms/Flow is the
--   reset of a password over ForgotPassword, Stores and Forms.
-- - Scripts: the two checks of scripts/. Words is the search for a whole word, which both write alike,
--   and the joining of the files that they read; Files is their walks over a tree of directories and
--   the end of the process; Patterns has the pieces of their regular expressions. PublicApi is
--   check-public-api-usage.mjs, Exports is audit-library-exports.mjs and Exports/Parser its
--   `parseExports`. Here texts are lists of code points.
--
-- A page is a record of its React state, its refs, its calls in flight and what it told the router,
-- with a `step` for each event, and what it renders is a function of the state, in its module or in
-- a module Screen below it. A handler that awaits is cut at its awaits, so that any other event
-- may come between, and what settles must be in flight. The interleavings are the lists of events
-- that `run` takes, without any bound.
--
-- The window of the audit table takes scroll offsets and heights as natural numbers of pixels;
-- fractional and negative offsets are not modelled.
--
-- Recursion is structural but for `decimal` of Expiry, which prints a number in as many rounds as
-- it is given: `two_digits` gives it one more than the number, and `label_reads` shows that these are
-- enough. The loop of `hammerLogin` recurs on the attempts that are left. The loops over the matches of
-- an expression recur on the text, and count down the characters that are still of the last match.
--
-- Not modelled: the markup and the class lists; the package @bymax-one/rust-auth, the browser and
-- the router, which are parameters, events and recorded calls; apps/api, which is a program of its
-- own in Rust; the primitives of components/ui, the configuration of the build, and the text that
-- the scripts print.
pub mod Base
pub mod Json
pub mod Redact
pub mod Http
pub mod Api
pub mod Platform
pub mod Gate
pub mod Otp
pub mod Expiry
pub mod Audit
pub mod Pages
pub mod Trigger
pub mod ErrorMessages
pub mod Mfa
pub mod Diagnostics
pub mod Shell
pub mod Alerts
pub mod Scripts
pub mod Config
