-- ===== src/Hub/Safety.antt =====
-- backend/internal/device/safety.go: the retried output-off, and the interlock that gives the
-- output one owner.
pub mod Exclusion
use dps150_web.Base.{
  ℕ, zero, suc, ◌+◌, Bool, true, false, not, Option, none, some, List, [], ◌∷◌, ltb, if◌then◌else◌,
}
use Prim.Native.String.{String}
use text.Mathlib.Text.{◌==◌}

abbrev pub safe_output_off_tries : ℕ
safe_output_off_tries = 3

-- The loop `for attempt := 1; attempt <= tries`, with `left` attempts to go. `outcome n` is what
-- SetOutput returns at the n-th attempt from here on, `none` being nil; `last` is the variable err.
-- The number of attempts made stands beside the error.
unfoldable pub off_attempts {ℓ} : {E : Type ℓ} → ℕ → (ℕ → Option E) → Option E → Option E × ℕ
off_attempts zero outcome last = (last, 0)
off_attempts {E} (suc left) outcome last =
    let (e, made) = off_attempts left (λ n. outcome (suc n)) (outcome 0) in
    let more : Option E × ℕ = (e, suc made) in elim (outcome 0) [ none ↦ (none, 1) | some x ↦ more ]

unfoldable pub safe_output_off {ℓ} : {E : Type ℓ} → (ℕ → Option E) → Option E × ℕ
unfolding off_attempts
safe_output_off outcome = off_attempts safe_output_off_tries outcome none

pub record Interlock : Type 0 where
  pub owner : String

-- The zero value is free.
abbrev pub free : Interlock
free = record { owner = "" }

unfoldable pub acquire : Interlock → String → Interlock × Bool
acquire i owner = if not (i.owner == "") then (i, false) else (record { owner = owner }, true)

unfoldable pub release : Interlock → String → Interlock
release i owner = if i.owner == owner then record { owner = "" } else i

unfoldable pub busy : Interlock → Bool
busy i = not (i.owner == "")
