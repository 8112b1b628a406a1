-- ===== src/Sequence/Program/Validation.antt =====
-- Validate of program.go: the programs that it accepts.
use dps150_web.Base.{
  ℕ, ◌+◌, ◌≤◌, ◌≡◌, ◌≢◌, refl, true, false, none, some, arith, if◌then◌else◌, ◌⊎◌, inl, inr,
  Bool-cases, Option-cases,
}
use Prim.Native.String.{String}
use text.Mathlib.Text.{◌==◌}
use dps150_web.Float.{Floats}
use dps150_web.Hub.State.{fallback_max_voltage, fallback_max_current}
use dps150_web.Sequence.Program.{
  max_nesting_depth, max_node_count, Invalid, Checked, counted, invalid, Condition, Fields, Nodes,
  no_nodes, node, Program, positive, condition_valid, ramp_target_max, out_of, set_hold_error,
  ramp_error, node_error, is_loop, validate_list, validate_nodes, validate,
}

module _ (fl : Floats) where
  -- The nodes that a run walks: the children of a loop count, those of another node do not.
  abbrev pub size : Nodes fl → ℕ
  size no_nodes = 0
  size (node f cs ns) = 1 + (if is_loop fl f then size cs else 0) + size ns

  abbrev pub IsSetHold : Fields fl → Type 0
  IsSetHold f =
      (out_of fl f.volts (fallback_max_voltage fl) ≡ false)
      × (out_of fl f.amps (fallback_max_current fl) ≡ false)
      × (c : Condition fl) × (f.advance ≡ some c)
      × (condition_valid fl c ≡ true)

  abbrev pub IsRamp : Fields fl → Type 0
  IsRamp f =
      (hi : fl.Float64) × (ramp_target_max fl f.target ≡ some hi)
      × (out_of fl f.from hi ≡ false)
      × (out_of fl f.to hi ≡ false)
      × (positive fl f.seconds ≡ true)

  -- Each node is of one of the three types and within the bounds of its type; the loops are nested
  -- to the depth 5 at most, counted from `depth`.
  abbrev pub AllValid : ℕ → Nodes fl → Type 0
  AllValid depth no_nodes = Unit
  AllValid depth (node f cs ns) =
      ((((f.type == "setHold") ≡ true) × IsSetHold f)
        ⊎ (((f.type == "ramp") ≡ true) × IsRamp f)
        ⊎ (((f.type == "loop") ≡ true) × (1 ≤ f.repeat) × (cs ≢ no_nodes)))
      × ((is_loop fl f ≡ false) ⊎ ((depth + 1 ≤ max_nesting_depth) × AllValid (depth + 1) cs))
      × AllValid depth ns

  set_hold_error-none : (f : Fields fl) → set_hold_error fl f ≡ none → IsSetHold f
  unfolding set_hold_error
  set_hold_error-none f e = elim (Option-cases f.advance) [
    | inl n ↦ absurd (ground arith)
    | inr (c, s) ↦ (ground arith, ground arith, c, s, ground arith)
  ]

  ramp_error-none : (f : Fields fl) → ramp_error fl f ≡ none → IsRamp f
  unfolding ramp_error
  ramp_error-none f e = ground arith

  node_error-none :
      (f : Fields fl) (cs : Nodes fl)
      → node_error fl f cs ≡ none
      → (((f.type == "setHold") ≡ true) × IsSetHold f)
        ⊎ (((f.type == "ramp") ≡ true) × IsRamp f)
        ⊎ (((f.type == "loop") ≡ true) × (1 ≤ f.repeat) × (cs ≢ no_nodes))
  unfolding node_error
  node_error-none f cs e = ground (arith, set_hold_error-none f, ramp_error-none f)

  Checked-cases : (r : Checked) → ((c : ℕ) × (r ≡ counted c)) ⊎ ((x : Invalid) × (r ≡ invalid x))
  Checked-cases (counted c) = inl (c, refl)
  Checked-cases (invalid x) = inr (x, refl)

  validate_list-counted :
      (ns : Nodes fl) (depth count c : ℕ)
      → validate_list fl depth ns count ≡ counted c
      → (c ≡ count + size ns) × AllValid depth ns × ((count ≤ max_node_count) → c ≤ max_node_count)
  unfolding validate_list
  validate_list-counted no_nodes depth count c e = ground arith
  validate_list-counted (node f cs ns) depth count c e = elim (Bool-cases (is_loop fl f)) [
    | inl l ↦ elim (Checked-cases (validate_list fl (depth + 1) cs (count + 1))) [
      | inl (k, ek) ↦
          let (k_eq, below, kb) = validate_list-counted cs (depth + 1) (count + 1) k ek in
          let next : validate_list fl depth ns k ≡ counted c = ground arith in
          let (c_eq, rest, cb) = validate_list-counted ns depth k c next in
          let fine : node_error fl f cs ≡ none = ground arith in
          let deep : depth + 1 ≤ max_nesting_depth = ground arith in
          let few : count + 1 ≤ max_node_count = ground arith in
          (
            rw l (omega (arith, k_eq, c_eq)),
            (node_error-none f cs fine, inr (deep, below), rest),
            λ _. cb (kb few),
          )
      | inr (x, ex) ↦ absurd (ground arith)
    ]
    | inr l ↦
        let next : validate_list fl depth ns (count + 1) ≡ counted c = ground arith in
        let (c_eq, rest, cb) = validate_list-counted ns depth (count + 1) c next in
        let fine : node_error fl f cs ≡ none = ground arith in
        let few : count + 1 ≤ max_node_count = ground arith in
        (rw l (omega (arith, c_eq)), (node_error-none f cs fine, inl l, rest), λ _. cb few)
  ]

  -- The rules that the documentation of Validate lists.
  abbrev pub IsRunnable : (String → String) → Program fl → Type 0
  IsRunnable trim_space p =
      ((trim_space p.name == "") ≡ false)
      × (p.steps ≢ no_nodes)
      × (1 ≤ p.repeat)
      × AllValid 1 p.steps
      × (size p.steps ≤ max_node_count)

  -- A program that Validate accepts has a name, a step and a repeat of at least 1; each of its
  -- nodes is a setHold within the device's envelope with a valid advance condition, a ramp within
  -- the envelope over a positive time, or a loop that repeats non-empty children; loops are nested
  -- to the depth 5 at most, and a run walks 200 nodes at most in one pass.
  pub validate-IsRunnable :
      (trim_space : String → String) (p : Program fl)
      → validate fl trim_space p ≡ none
      → IsRunnable trim_space p
  unfolding validate validate_nodes
  validate-IsRunnable trim_space p e = elim (Checked-cases (validate_list fl 1 p.steps 0)) [
    | inl (c, ec) ↦
        let (c_eq, all, few) = validate_list-counted p.steps 1 0 c ec in
        let bounded : c ≤ max_node_count = few (omega arith) in
        let some_steps : p.steps ≢ no_nodes = λ q. ground arith in
        (ground arith, some_steps, ground arith, all, omega (arith, c_eq, bounded))
    | inr (x, ex) ↦ absurd (ground arith)
  ]
