-- ===== src/Pages.antt =====
-- The pages of apps/web/app as state machines. An event is a user's action, a timer, or a promise
-- that settles: a handler that awaits is cut in two at its `await`, so that other events may come
-- between.
pub mod Tenant
pub mod Stores
pub mod ForgotPassword
pub mod VerifyEmail
pub mod MfaChallenge
pub mod Login
pub mod Forms
pub mod PlatformLogin
pub mod Security
pub mod Sessions
pub mod PlatformSecurity
pub mod Invitations
pub mod Oauth
pub mod PlatformSessions
pub mod PlatformUsers
pub mod Overview
pub mod Account
use rust_auth_example.Base.{String}

-- `router.push(path)` and `router.replace(path)`
pub data Navigation : Type 0 where
  push : String → Navigation
  replace : String → Navigation
