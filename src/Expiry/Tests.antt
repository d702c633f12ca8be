-- ===== src/Expiry/Tests.antt =====
-- Runs of the countdown.
use rust_auth_example.Base.{ℕ, ◌+◌, ◌*◌, ◌≤◌, ◌<◌, List, ◌∷◌, ◌++◌, ◌≡◌, refl, codes, length, arith}
use rust_auth_example.Expiry.{label, two_digits}
use rust_auth_example.Expiry.Label.{AreDigits, value_from, label_reads}

label_runs : (label 605 ≡ codes "10:05") × (label 59 ≡ codes "00:59") × (label 0 ≡ codes "Expired")
unfolding label two_digits
label_runs = (refl, refl, refl)

label_reads_example :
    (minutes : List ℕ) × (seconds : List ℕ) × (label 605 ≡ minutes ++ b':' ∷ seconds)
    × AreDigits minutes
    × AreDigits seconds
    × (value_from 0 minutes * 60 + value_from 0 seconds ≡ 605)
    × (value_from 0 seconds < 60)
    × (2 ≤ length minutes)
    × (length seconds ≡ 2)
label_reads_example = label_reads 605 (omega arith)
