-- ===== src/Pages/Overview/Tiles.antt =====
-- The tiles and the chips of the overview, with components/overview/HealthCard.tsx and
-- ProviderChips.tsx beside it, over `AuditAggregate` of apps/web/lib/audit-aggregate.ts.
use rust_auth_example.Base.{Bool, true, false, String, List, [], ◌∷◌}
use Prim.Native.String.{◌++◌ as text_append}
use rust_auth_example.Json.{Number}

-- `AuditAggregate`; the provider is the text that is shown.
pub record AuditAggregate : Type 0 where
  pub login_success_rate : Number
  pub verify_success_rate : Number
  pub active_sessions : Number
  pub mfa_enrolled_share : Number
  pub email_provider : String
  pub oauth_google_enabled : Bool

-- `HealthCardProps`; no tile of the overview has a caption.
pub record HealthCard : Type 0 where
  pub label : String
  pub value : String
  pub icon : String
  pub accent : String

-- `percent` is `String(Math.round(rate * 100))`, and `show` is `String`, of a number.
module _ (percent show : Number → String) where
  -- `pct`
  unfoldable pub pct : Number → String
  pct rate = text_append (percent rate) "%"

  unfoldable pub health_cards : AuditAggregate → List HealthCard
  unfolding pct
  health_cards a =
      record {
        label = "Login success";
        value = pct a.login_success_rate;
        icon = "CheckCircle2";
        accent = "#ff6224";
      }
      ∷ record {
        label = "Verify success";
        value = pct a.verify_success_rate;
        icon = "ShieldCheck";
        accent = "#06b6d4";
      }
      ∷ record {
        label = "Active sessions";
        value = show a.active_sessions;
        icon = "MonitorSmartphone";
        accent = "#10b981";
      }
      ∷ record {
        label = "MFA enrolled";
        value = pct a.mfa_enrolled_share;
        icon = "KeyRound";
        accent = "#8b5cf6";
      }
      ∷ []

-- A badge of `ProviderChips`; the class of its label is that of muted text while the badge is
-- outlined.
pub record Chip : Type 0 where
  pub label : String
  pub text : String
  pub is_outline : Bool
  pub is_muted : Bool

unfoldable pub google_chip : Bool → Chip
google_chip true = record {
  label = "Google OAuth";
  text = "on";
  is_outline = false;
  is_muted = false;
}
google_chip false = record {
  label = "Google OAuth";
  text = "off";
  is_outline = true;
  is_muted = true;
}

-- `ProviderChips`
unfoldable pub provider_chips : String → Bool → List Chip
unfolding google_chip
provider_chips email_provider oauth_google_enabled =
    record { label = "email"; text = email_provider; is_outline = true; is_muted = true }
    ∷ google_chip oauth_google_enabled
    ∷ []
