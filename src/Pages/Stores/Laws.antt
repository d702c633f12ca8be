-- ===== src/Pages/Stores/Laws.antt =====
-- A token that is put into a slot is handed out once at most.
use rust_auth_example.Base.{String, Option, none, some, List, [], ◌∷◌, ◌++◌, ◌≡◌, refl}
use mathlib.Core.List.{Sublistᴰ}
use rust_auth_example.Pages.Stores.{
  Slot, set_pending_mfa_challenge, consume_pending_mfa_challenge, set_reset_verified_token,
  consume_reset_verified_token,
}

-- What the pages do to a slot, in any order.
pub data Access : Type 0 where
  put : (token : String) → Access
  consume : Access

abbrev to_list : Option String → List String
to_list none = []
to_list (some token) = token ∷ []

-- The tokens that the consumers received, in order.
pub received : Slot → List Access → List String
received slot [] = []
received slot (put token ∷ as') = received (set_pending_mfa_challenge token slot) as'
received slot (consume ∷ as') =
    let (token, left) = consume_pending_mfa_challenge slot in to_list token ++ received left as'

-- The tokens that were put, in order.
given : List Access → List String
given [] = []
given (put token ∷ as') = token ∷ given as'
given (consume ∷ as') = given as'

-- Whatever the order of accesses, the tokens received are a part, in the same order, of the token
-- in the slot and those put into it: none is handed out twice, and none that was not put.
received-Sublist :
    (slot : Slot) (accesses : List Access)
    → Sublistᴰ (received slot accesses) (to_list slot ++ given accesses)
unfolding received given set_pending_mfa_challenge consume_pending_mfa_challenge
received-Sublist none [] = Sublistᴰ.slnil
received-Sublist (some t) [] = Sublistᴰ.cons Sublistᴰ.slnil
received-Sublist none (put token ∷ as') = received-Sublist (some token) as'
received-Sublist (some t) (put token ∷ as') = Sublistᴰ.cons (received-Sublist (some token) as')
received-Sublist none (consume ∷ as') = received-Sublist none as'
received-Sublist (some t) (consume ∷ as') = Sublistᴰ.cons-cons refl (received-Sublist none as')

-- The reset-flow store and the MFA-challenge store behave alike.
stores_agree :
    (token : String) (slot : Slot)
    → (set_reset_verified_token token slot ≡ set_pending_mfa_challenge token slot)
      × (consume_reset_verified_token slot ≡ consume_pending_mfa_challenge slot)
unfolding set_reset_verified_token set_pending_mfa_challenge consume_reset_verified_token
    consume_pending_mfa_challenge
stores_agree token slot = (refl, refl)
