-- ===== src/Sequence/Manager.antt =====
-- backend/internal/sequence/manager.go: the slot of the active run and the shared interlock. Each
-- function is one step: nothing else happens between its locks here. A run is named by a number.
pub mod Ownership
use dps150_web.Base.{ℕ, Bool, true, false, Option, none, some, ◌==◌, if◌then◌else◌}
use Prim.Native.String.{String}
use dps150_web.Float.{Floats}
use dps150_web.Hub.Command.{CommandError}
use dps150_web.Hub.Safety.{Interlock, acquire, release}
use dps150_web.Sequence.Program.{Program, Invalid, validate}

abbrev pub interlock_owner : String
interlock_owner = "sequence"

-- The manager, with the interlock that it shares, if it is wired to one.
pub record Manager : Type 0 where
  pub interlock : Option Interlock
  pub active : Option ℕ

pub data StartResult : Type 0 where
  launched : StartResult
  invalid_program : Invalid → StartResult
  run_active : StartResult
  hub_failed : CommandError → StartResult

unfoldable pub release_interlock : Manager → Manager
release_interlock m = elim m.interlock [
  | none ↦ m
  | some i ↦ record m { interlock = some (release i interlock_owner) }
]

-- The manager with the interlock claimed, if that succeeds.
unfoldable pub claim : Manager → Option Manager
claim m = elim m.interlock [
  | none ↦ some m
  | some i ↦
      let (i', ok) = acquire i interlock_owner in
      if ok then some (record m { interlock = some i' }) else none
]

-- From the claimed interlock on; `answer` is what SetOutput(true) returns.
unfoldable pub energize : Manager → ℕ → Option CommandError → Manager × StartResult
unfolding release_interlock
energize m id answer = elim m.active [
  | some other ↦ (release_interlock m, run_active)
  | none ↦ elim answer [
    | some e ↦ (release_interlock (record m { active = none }), hub_failed e)
    | none ↦ (record m { active = some id }, launched)
  ]
]

module _ (fl : Floats) (trim_space : String → String) where
  unfoldable pub start : Manager → Program fl → ℕ → Option CommandError → Manager × StartResult
  unfolding claim energize
  start m p id answer = elim (validate fl trim_space p) [
    | some x ↦ (m, invalid_program x)
    | none ↦ elim (claim m) [ none ↦ (m, run_active) | some m' ↦ energize m' id answer ]
  ]

-- The part of `finish` that frees the slot of the run `id` and then the interlock.
unfoldable pub finish_slot : Manager → ℕ → Manager
unfolding release_interlock
finish_slot m id =
    let freed : Manager = elim m.active [
      | none ↦ m
      | some a ↦ if a == id then record m { active = none } else m
    ] in
    release_interlock freed

unfoldable pub is_running : Manager → Bool
is_running m = elim m.active [ none ↦ false | some a ↦ true ]
