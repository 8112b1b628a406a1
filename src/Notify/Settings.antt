-- ===== src/Notify/Settings.antt =====
-- backend/internal/notify/settings.go: which notifications are on. Decoding the stored value is encoding/json's.
use dps150_web.Base.{Bool, true, false, Option, none, some}
use Prim.Native.String.{String}

pub data Kind : Type 0 where
  protection_trip : Kind
  device_link : Kind
  output : Kind
  metering_session : Kind

pub record EventSettings : Type 0 where
  pub protection_trip : Bool
  pub device_link : Bool
  pub output : Bool
  pub metering_session : Bool

pub record Settings : Type 0 where
  pub telegram_enabled : Bool
  pub events : EventSettings

abbrev pub default_settings : Settings
default_settings = record {
  telegram_enabled = true;
  events = record {
    protection_trip = true;
    device_link = true;
    output = false;
    metering_session = true;
  };
}

abbrev pub enabled : EventSettings → Kind → Bool
enabled e protection_trip = e.protection_trip
enabled e device_link = e.device_link
enabled e output = e.output
enabled e metering_session = e.metering_session

-- What GetSetting comes to: the stored text, ErrNotFound, or another error.
pub data Loaded : Type 0 where
  found : String → Loaded
  missing : Loaded
  unavailable : Loaded

-- `none` is an error; `unmarshal` decodes a stored text.
unfoldable pub load_settings : (String → Option Settings) → Loaded → Option Settings
load_settings unmarshal (found raw) = unmarshal raw
load_settings unmarshal missing = some default_settings
load_settings unmarshal unavailable = none
