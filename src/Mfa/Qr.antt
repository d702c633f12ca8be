-- ===== src/Mfa/Qr.antt =====
-- The effect of apps/web/components/mfa/QrEnrollmentCard.tsx that draws the enrolment's URI.
pub mod Laws
use rust_auth_example.Base.{
  ℕ, zero, suc, Bool, true, false, String, Option, none, some, List, [], ◌∷◌, map, if◌then◌else◌,
}
use rust_auth_example.Http.{Outcome, resolved, rejected}

-- A conversion in flight, with the variable of the effect that its cleanup sets.
pub record Conversion : Type 0 where
  pub uri : String
  pub cancelled : Bool

pub record Qr : Type 0 where
  pub uri : String
  pub qr_data_url : Option String
  pub conversions : List Conversion

pub data Event : Type 0 where
  uri_changed : String → Event
  settled : (index : ℕ) → Event

-- The cleanup of the effect
pub cancel : Conversion → Conversion
cancel c = record c { cancelled = true }

-- The data URL of what a conversion settles with
pub url_of : Outcome String → Option String
url_of (resolved url) = some url
url_of (rejected err) = none

pub mount : String → Qr
mount uri = record {
  uri = uri;
  qr_data_url = none;
  conversions = record { uri = uri; cancelled = false } ∷ [];
}

pub without : ℕ → List Conversion → List Conversion
without index [] = []
without zero (c ∷ cs) = cs
without (suc index) (c ∷ cs) = c ∷ without index cs

-- `to_data_url` is `QRCode.toDataURL`, which settles with the same for the same text.
module _ (to_data_url : String → Outcome String) where
  -- `.then` and `.catch` of the conversion that settles
  pub shown_after : ℕ → List Conversion → Option String → Option String
  unfolding url_of
  shown_after index [] old = old
  shown_after zero (c ∷ cs) old = if c.cancelled then old else url_of (to_data_url c.uri)
  shown_after (suc index) (c ∷ cs) old = shown_after index cs old

  pub step : Event → Qr → Qr
  unfolding cancel without shown_after
  step (uri_changed uri) s = record s {
    uri = uri;
    conversions = record { uri = uri; cancelled = false } ∷ map cancel s.conversions;
  }
  step (settled index) s = record s {
    qr_data_url = shown_after index s.conversions s.qr_data_url;
    conversions = without index s.conversions;
  }

  pub run : List Event → Qr → Qr
  run [] s = s
  run (e ∷ es) s = run es (step e s)
