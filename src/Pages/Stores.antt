-- ===== src/Pages/Stores.antt =====
-- apps/web/lib/mfa-challenge-store.ts and apps/web/lib/reset-flow-store.ts: two module-scoped slots
-- for a token, with the same operations.
pub mod Laws
use rust_auth_example.Base.{String, Option, none, some}

-- The variable `pendingMfaTempToken`, or `pendingVerifiedToken`
abbrev pub Slot : Type 0
Slot = Option String

-- `setPendingMfaChallenge`
unfoldable pub set_pending_mfa_challenge : String → Slot → Slot
set_pending_mfa_challenge token slot = some token

-- `consumePendingMfaChallenge`: the result, and the slot after it
unfoldable pub consume_pending_mfa_challenge : Slot → Option String × Slot
consume_pending_mfa_challenge slot = (slot, none)

-- `setResetVerifiedToken`
unfoldable pub set_reset_verified_token : String → Slot → Slot
set_reset_verified_token token slot = some token

-- `consumeResetVerifiedToken`
unfoldable pub consume_reset_verified_token : Slot → Option String × Slot
consume_reset_verified_token slot = (slot, none)
