-- ===== src/Protocol/Event.antt =====
-- backend/internal/device/protocol/decode.go: the typed events of the device.
use dps150_web.Base.{ℕ, Bool, List}
use dps150_web.Float.{Floats}
use dps150_web.Protocol.Register.{Protection, Mode}

pub data InfoField : Type 0 where
  info_model_name info_hardware_version info_firmware_version : InfoField

module _ (fl : Floats) where
  open fl use {Float32}

  pub record Preset : Type 0 where
    pub voltage : Float32
    pub current : Float32

  pub record FullDump : Type 0 where
    pub raw : List ℕ
    pub input_voltage : Float32
    pub voltage_set : Float32
    pub current_set : Float32
    pub output_voltage : Float32
    pub output_current : Float32
    pub output_power : Float32
    pub temperature : Float32
    pub presets : List Preset
    pub ovp : Float32
    pub ocp : Float32
    pub opp : Float32
    pub otp : Float32
    pub lvp : Float32
    pub brightness : ℕ
    pub volume : ℕ
    pub metering_on : Bool
    pub capacity : Float32
    pub energy : Float32
    pub output_on : Bool
    pub protection : Protection
    pub mode : Mode
    pub max_voltage : Float32
    pub max_current : Float32

  pub data Event : Type 0 where
    measurement : Float32 → Float32 → Float32 → Event
    input_voltage : Float32 → Event
    temperature : Float32 → Event
    max_voltage : Float32 → Event
    max_current : Float32 → Event
    voltage_set : Float32 → Event
    current_set : Float32 → Event
    output_state : Bool → Event
    protection_state : Protection → Event
    cccv_mode : Mode → Event
    capacity : Float32 → Event
    energy : Float32 → Event
    device_info : InfoField → List ℕ → Event
    full_dump : FullDump → Event
