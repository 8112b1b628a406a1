-- ===== src/Protocol/Register.antt =====
-- backend/internal/device/protocol/register.go: command groups, the register map, the preset
-- registers, and the names of protections and modes.
use dps150_web.Base.{ℕ, ◌+◌, ◌-◌, ◌*◌, ◌%◌, Option, none, some, ltb, if◌then◌else◌, ◌||◌, ◌==◌}
use Prim.Native.String.{String}

abbrev pub Group : Type 0
Group = ℕ

abbrev pub group_read : Group
group_read = 0xA1

abbrev pub group_baud : Group
group_baud = 0xB0

abbrev pub group_write : Group
group_write = 0xB1

abbrev pub group_session : Group
group_session = 0xC1

abbrev pub Register : Type 0
Register = ℕ

abbrev pub reg_input_voltage : Register
reg_input_voltage = 0xC0

abbrev pub reg_voltage_set : Register
reg_voltage_set = 0xC1

abbrev pub reg_current_set : Register
reg_current_set = 0xC2

abbrev pub reg_measurement : Register
reg_measurement = 0xC3

abbrev pub reg_temperature : Register
reg_temperature = 0xC4

abbrev pub reg_m1_voltage : Register
reg_m1_voltage = 0xC5

abbrev pub reg_m6_current : Register
reg_m6_current = 0xD0

abbrev pub reg_ovp : Register
reg_ovp = 0xD1

abbrev pub reg_ocp : Register
reg_ocp = 0xD2

abbrev pub reg_opp : Register
reg_opp = 0xD3

abbrev pub reg_otp : Register
reg_otp = 0xD4

abbrev pub reg_lvp : Register
reg_lvp = 0xD5

abbrev pub reg_brightness : Register
reg_brightness = 0xD6

abbrev pub reg_volume : Register
reg_volume = 0xD7

abbrev pub reg_metering_enable : Register
reg_metering_enable = 0xD8

abbrev pub reg_capacity : Register
reg_capacity = 0xD9

abbrev pub reg_energy : Register
reg_energy = 0xDA

abbrev pub reg_output_enable : Register
reg_output_enable = 0xDB

abbrev pub reg_protection_state : Register
reg_protection_state = 0xDC

abbrev pub reg_mode : Register
reg_mode = 0xDD

abbrev pub reg_model_name : Register
reg_model_name = 0xDE

abbrev pub reg_hardware_version : Register
reg_hardware_version = 0xDF

abbrev pub reg_firmware_version : Register
reg_firmware_version = 0xE0

abbrev pub reg_max_voltage : Register
reg_max_voltage = 0xE2

abbrev pub reg_max_current : Register
reg_max_current = 0xE3

abbrev pub reg_all : Register
reg_all = 0xFF

abbrev pub preset_count : ℕ
preset_count = 6

-- `none` is the error "preset index out of range". The arithmetic is on a byte, so it wraps; the
-- slot is a Go int, and a negative one, which the same guard refuses, is not represented.
unfoldable pub preset_regs : ℕ → Option (Register × Register)
preset_regs n =
    if ltb n 1 || ltb preset_count n
    then none
    else (let voltage = (reg_m1_voltage + 2 * (n - 1) % 256) % 256 in
        some (voltage, (voltage + 1) % 256))

abbrev pub Baud : Type 0
Baud = ℕ

abbrev pub baud_115200 : Baud
baud_115200 = 5

abbrev pub Protection : Type 0
Protection = ℕ

abbrev pub protection_ok : Protection
protection_ok = 0

abbrev pub protection_ovp : Protection
protection_ovp = 1

abbrev pub protection_ocp : Protection
protection_ocp = 2

abbrev pub protection_opp : Protection
protection_opp = 3

abbrev pub protection_otp : Protection
protection_otp = 4

abbrev pub protection_lvp : Protection
protection_lvp = 5

abbrev pub protection_rep : Protection
protection_rep = 6

-- Protection.String, with the text that fmt gives of an unknown one.
unfoldable pub protection_string : (ℕ → String) → Protection → String
protection_string print p =
    if p == protection_ok
    then "OK"
    else if p == protection_ovp
    then "OVP"
    else if p == protection_ocp
    then "OCP"
    else if p == protection_opp
    then "OPP"
    else if p == protection_otp
    then "OTP"
    else if p == protection_lvp
    then "LVP"
    else if p == protection_rep
    then "REP"
    else print p

abbrev pub Mode : Type 0
Mode = ℕ

abbrev pub mode_cc : Mode
mode_cc = 0

abbrev pub mode_cv : Mode
mode_cv = 1
