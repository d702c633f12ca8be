-- ===== src/Mfa/Download.antt =====
-- `download` of apps/web/components/mfa/RecoveryCodeGrid.tsx. A code is the list of its characters.
pub mod Laws
use rust_auth_example.Base.{List, [], ◌∷◌, ◌++◌, String}
use rust_auth_example.Scripts.Words.{Text}

-- `codes.join('\n')`
unfoldable pub codes_text : List Text → Text
codes_text [] = []
codes_text (code ∷ []) = code
codes_text (code ∷ next ∷ rest) = code ++ (10 ∷ codes_text (next ∷ rest))

-- What the handler does to the browser: an object URL of a blob is made, a click on an anchor with
-- that URL saves it under a name, and the URL is revoked.
pub data Effect : Type 0 where
  create_object_url : (text : Text) → Effect
  save_as : (name : String) → Effect
  revoke_object_url : Effect

unfoldable pub download : List Text → List Effect
unfolding codes_text
download codes =
    create_object_url (codes_text codes) ∷ save_as "recovery-codes.txt" ∷ revoke_object_url ∷ []
