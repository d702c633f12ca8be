-- ===== src/Diagnostics/Badges.antt =====
-- What the one-shot cards of DiagnosticsMatrix.tsx render of the answers, and when.
use rust_auth_example.Base.{
  Bool, true, false, Option, none, some, if◌then◌else◌, ◌≡◌, ◌≢◌, ◌↔◌, Bool-cases, inl, inr, refl,
  arith,
}
use rust_auth_example.Json.{Json, null, bool, num, str, arr, obj, Number}
use rust_auth_example.Diagnostics.Inspector.{optional_field, is_true}
use rust_auth_example.Diagnostics.Matrix.{ActionState, idle, busy, error, ok, Count, hook_count}

-- The result of a card: a `null` answer has no properties to read, so that the render throws.
pub data Rendered : Type 0 where
  threw needs_rehash up_to_date : Rendered
  retry_in : (seconds : Number) → Rendered
  locked lockout_triggered : Rendered
  events : Count → Rendered

-- A property of an answer that is not `null`; an array and a string have none of these.
unfoldable pub rendered_hash : Json → Rendered
unfolding optional_field is_true
rendered_hash null = threw
rendered_hash value =
    if is_true (optional_field "needsRehash" (some value)) then needs_rehash else up_to_date

unfoldable pub locked_badge : Bool → Rendered
locked_badge true = locked
locked_badge false = lockout_triggered

-- `typeof seconds === 'number' && seconds > 0`, where `is_positive` is the comparison
unfoldable pub lockout_badge : (Number → Bool) → Option Json → Bool → Rendered
unfolding locked_badge
lockout_badge is_positive (some (num n)) is_locked =
    if is_positive n then retry_in n else locked_badge is_locked
lockout_badge is_positive other is_locked = locked_badge is_locked

unfoldable pub rendered_lockout : (Number → Bool) → Json → Rendered
unfolding optional_field is_true lockout_badge
rendered_lockout is_positive null = threw
rendered_lockout is_positive value =
    lockout_badge is_positive (optional_field "remainingLockoutSecs" (some value))
      (is_true (optional_field "locked" (some value)))

unfoldable pub rendered_hooks : Json → Rendered
unfolding hook_count
rendered_hooks value = events (hook_count value)

-- A card: whether its button is disabled, whether it says that the request failed, and its result
pub record Card : Type 0 where
  pub is_disabled : Bool
  pub is_failed : Bool
  pub result : Option Rendered

unfoldable pub card_of : (Json → Rendered) → ActionState → Card
card_of render idle = record { is_disabled = false; is_failed = false; result = none }
card_of render busy = record { is_disabled = true; is_failed = false; result = none }
card_of render error = record { is_disabled = false; is_failed = true; result = none }
card_of render (ok value) = record {
  is_disabled = false;
  is_failed = false;
  result = some (render value);
}

hash_threw : (value : Json) → rendered_hash value ≡ threw → value ≡ null
unfolding rendered_hash
hash_threw null h = refl
hash_threw (bool b) h = ground arith
hash_threw (num n) h = ground arith
hash_threw (str s) h = ground arith
hash_threw (arr vs) h = ground arith
hash_threw (obj fs) h = ground arith

locked_badge-threw : (b : Bool) → locked_badge b ≢ threw
unfolding locked_badge
locked_badge-threw true h = cc
locked_badge-threw false h = cc

lockout_badge-threw :
    (is_positive : Number → Bool) (o : Option Json) (b : Bool)
    → lockout_badge is_positive o b ≢ threw
unfolding lockout_badge
lockout_badge-threw is_positive none b = locked_badge-threw b
lockout_badge-threw is_positive (some null) b = locked_badge-threw b
lockout_badge-threw is_positive (some (bool x)) b = locked_badge-threw b
lockout_badge-threw is_positive (some (num n)) b = λ h. elim (Bool-cases (is_positive n)) [
  | inl yes_it_is ↦ let no : retry_in n ≡ threw = rw yes_it_is at h in cc
  | inr no_it_is ↦ locked_badge-threw b (rw no_it_is at h)
]
lockout_badge-threw is_positive (some (str x)) b = locked_badge-threw b
lockout_badge-threw is_positive (some (arr x)) b = locked_badge-threw b
lockout_badge-threw is_positive (some (obj x)) b = locked_badge-threw b

lockout_of-threw :
    (is_positive : Number → Bool) (value : Json)
    → lockout_badge is_positive
        (optional_field "remainingLockoutSecs" (some value))
        (is_true (optional_field "locked" (some value)))
      ≢ threw
lockout_of-threw is_positive value =
    lockout_badge-threw is_positive (optional_field "remainingLockoutSecs" (some value))
      (is_true (optional_field "locked" (some value)))

lockout_threw :
    (is_positive : Number → Bool) (value : Json)
    → rendered_lockout is_positive value ≡ threw
    → value ≡ null
unfolding rendered_lockout
lockout_threw is_positive null h = refl
lockout_threw is_positive (bool b) h = absurd (lockout_of-threw is_positive (bool b) h)
lockout_threw is_positive (num n) h = absurd (lockout_of-threw is_positive (num n) h)
lockout_threw is_positive (str s) h = absurd (lockout_of-threw is_positive (str s) h)
lockout_threw is_positive (arr vs) h = absurd (lockout_of-threw is_positive (arr vs) h)
lockout_threw is_positive (obj fs) h = absurd (lockout_of-threw is_positive (obj fs) h)

-- The cards for the hash and for the lockout fail to render the answer `null`, and no other one,
-- whatever numbers count as positive.
pub rendered-eq-threw_iff :
    (is_positive : Number → Bool) (value : Json)
    → ((rendered_hash value ≡ threw) ↔ (value ≡ null))
      × ((rendered_lockout is_positive value ≡ threw) ↔ (value ≡ null))
unfolding rendered_hash rendered_lockout
rendered-eq-threw_iff is_positive value =
    ((hash_threw value, λ h. rw h refl), (lockout_threw is_positive value, λ h. rw h refl))
