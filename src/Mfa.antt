-- ===== src/Mfa.antt =====
-- The cards of apps/web/components/mfa: Copy is the copy button of RecoveryCodeGrid.tsx and of
-- QrEnrollmentCard.tsx, Qr the effect of the latter that draws the code.
pub mod Copy
pub mod Download
pub mod Qr
