-- ===== src/ErrorMessages/Tests.antt =====
-- The table of error messages at concrete codes.
use rust_auth_example.Base.{none, ◌≡◌, ◌↔◌, has, true}
use rust_auth_example.ErrorMessages.{message_for_code, inherited_names}
use rust_auth_example.ErrorMessages.Laws.{message_for_code-eq-none_iff}

message_for_code-eq-none_iff_example :
    (message_for_code "toString" ≡ none) ↔ (has inherited_names "toString" ≡ true)
message_for_code-eq-none_iff_example = message_for_code-eq-none_iff "toString"
