-- ===== src/Mfa/Download/Laws.antt =====
-- The file that is saved holds the codes.
use rust_auth_example.Base.{List, [], ◌∷◌, ◌≡◌, refl, true, All}
use rust_auth_example.Scripts.Words.{Text}
use rust_auth_example.Scripts.Patterns.{split}
use rust_auth_example.Scripts.Patterns.Splits.{lacks, split-lacks, split-lacks_on}
use rust_auth_example.Mfa.Download.{
  codes_text, create_object_url, save_as, revoke_object_url, download,
}

abbrev IsLine : Text → Type 0
IsLine code = lacks 10 code ≡ true

codes_text-lines :
    (code : Text) (rest : List Text)
    → All IsLine (code ∷ rest)
    → split 10 (codes_text (code ∷ rest)) ≡ code ∷ rest
unfolding codes_text
codes_text-lines code [] h = split-lacks 10 code h.0
codes_text-lines code (next ∷ rest) h =
    rw (split-lacks_on 10 code (codes_text (next ∷ rest)) h.0, codes_text-lines next rest h.1) refl

-- Of one code or more, none of them with a line end, the file that `download` saves has the codes as
-- its lines, in order, and the URL of the blob is revoked after that.
download_lines :
    (code : Text) (rest : List Text)
    → All IsLine (code ∷ rest)
    → (text : Text) × (download (code ∷ rest)
        ≡ create_object_url text ∷ save_as "recovery-codes.txt" ∷ revoke_object_url ∷ [])
      × (split 10 text ≡ code ∷ rest)
unfolding download
download_lines code rest h = (codes_text (code ∷ rest), refl, codes_text-lines code rest h)
