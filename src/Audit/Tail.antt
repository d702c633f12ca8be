-- ===== src/Audit/Tail.antt =====
-- apps/web/hooks/use-audit-tail.ts: the live tail and its follow mode.
pub mod Laws
use rust_auth_example.Base.{
  ℕ, ◌+◌, Bool, true, false, Option, none, some, List, [], ◌∷◌, ◌++◌, if◌then◌else◌,
}
use rust_auth_example.Audit.{AuditLogRow}

-- `rows`, `following`, `followingRef.current`, `pendingCount`, and whether the stream is open.
pub record TailState : Type 0 where
  pub rows : List AuditLogRow
  pub following : Bool
  pub following_ref : Bool
  pub pending_count : ℕ
  pub is_open : Bool

-- A message carries a row, or (`none`) data that `JSON.parse` refuses.
pub data TailEvent : Type 0 where
  set_following : Bool → TailEvent
  set_enabled : Bool → TailEvent
  message : Option AuditLogRow → TailEvent

unfoldable pub initial : Bool → TailState
initial enabled = record {
  rows = [];
  following = true;
  following_ref = true;
  pending_count = 0;
  is_open = enabled;
}

-- `setFollowing`
pub follow : Bool → TailState → TailState
follow next s = record s {
  following_ref = next;
  following = next;
  pending_count = if next then 0 else s.pending_count;
}

-- `handler`
pub receive : Option AuditLogRow → TailState → TailState
receive none s = s
receive (some row) s = record s {
  rows = s.rows ++ row ∷ [];
  pending_count = if s.following_ref then s.pending_count else s.pending_count + 1;
}

-- The effect on `enabled` closes the stream and opens it; a closed stream delivers nothing.
unfoldable pub step : TailEvent → TailState → TailState
unfolding follow receive
step (set_following next) s = follow next s
step (set_enabled enabled) s = record s { is_open = enabled }
step (message item) s = if s.is_open then receive item s else s

pub run : List TailEvent → TailState → TailState
run [] s = s
run (e ∷ es) s = run es (step e s)
