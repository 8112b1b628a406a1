-- ===== src/Sequence/Program/Acceptance.antt =====
-- Validate of program.go on the programs that follow its rules.
use dps150_web.Base.{
  ℕ, ◌+◌, ◌≤◌, ◌≡◌, ◌≢◌, ◌↔◌, ◌∙◌, refl, ap, true, false, none, ltb, arith, ◌⊎◌, inl, inr,
  Bool-cases,
}
use Prim.Native.String.{String}
use text.Mathlib.Text.{◌==◌}
use text.Mathlib.TextEquality.{eq_iff}
use dps150_web.Float.{Floats}
use dps150_web.Sequence.Program.{
  max_nesting_depth, max_node_count, counted, Fields, Nodes, no_nodes, node, Program,
  set_hold_error, ramp_error, is_empty, node_error, is_loop, validate_list, validate_nodes,
  validate,
}
use dps150_web.Sequence.Program.Validation.{
  size, IsSetHold, IsRamp, AllValid, IsRunnable, validate-IsRunnable,
}

module _ (fl : Floats) where
  set_hold_error-IsSetHold : (f : Fields fl) → IsSetHold fl f → set_hold_error fl f ≡ none
  unfolding set_hold_error
  set_hold_error-IsSetHold f (v, a, c, s, ok) = rw (v, a, s, ok, set_hold_error) refl

  ramp_error-IsRamp : (f : Fields fl) → IsRamp fl f → ramp_error fl f ≡ none
  unfolding ramp_error
  ramp_error-IsRamp f (hi, m, from, to, s) = rw (m, from, to, s, ramp_error) refl

  is_empty-no_nodes : (cs : Nodes fl) → cs ≢ no_nodes → is_empty fl cs ≡ false
  is_empty-no_nodes no_nodes ne = absurd (ne refl)
  is_empty-no_nodes (node f cs ns) ne = refl

  same_type : (s t : String) → (s == t) ≡ true → s ≡ t
  same_type s t e = (eq_iff s t).0 e

  node_error-valid :
      (f : Fields fl) (cs : Nodes fl)
      → (((f.type == "setHold") ≡ true) × IsSetHold fl f)
        ⊎ (((f.type == "ramp") ≡ true) × IsRamp fl f)
        ⊎ (((f.type == "loop") ≡ true) × (1 ≤ f.repeat) × (cs ≢ no_nodes))
      → node_error fl f cs ≡ none
  unfolding node_error
  node_error-valid f cs (inl (t, ok)) = rw (t, node_error) (set_hold_error-IsSetHold f ok)
  node_error-valid f cs (inr (inl (t, ok))) =
      let other : (f.type == "setHold") ≡ false =
        ap (λ s. s == "setHold") (same_type f.type "ramp" t) in
      rw (other, t, node_error) (ramp_error-IsRamp f ok)
  node_error-valid f cs (inr (inr (t, more, ne))) =
      let named = same_type f.type "loop" t in
      let hold : (f.type == "setHold") ≡ false = ap (λ s. s == "setHold") named in
      let ramp : (f.type == "ramp") ≡ false = ap (λ s. s == "ramp") named in
      let enough : ltb f.repeat 1 ≡ false = ground arith in
      rw (hold, ramp, t, enough, is_empty-no_nodes cs ne, node_error) refl

  validate_list-AllValid :
      (ns : Nodes fl) (depth count : ℕ)
      → AllValid fl depth ns
      → count + size fl ns ≤ max_node_count
      → validate_list fl depth ns count ≡ counted (count + size fl ns)
  unfolding validate_list
  validate_list-AllValid no_nodes depth count ok few = ap counted (omega arith)
  validate_list-AllValid (node f cs ns) depth count (own, loop, rest) few =
      elim (Bool-cases (is_loop fl f)) [
        | inl l ↦ elim loop [
          | inl plain ↦ absurd (ground arith)
          | inr (deep, below) ↦
              let all : count + (1 + size fl cs + size fl ns) ≤ max_node_count = rw l at few in
              let room : ltb max_node_count (count + 1) ≡ false = ground arith in
              let within : ltb max_nesting_depth (depth + 1) ≡ false = ground arith in
              let under = validate_list-AllValid cs (depth + 1) (count + 1) below (omega arith) in
              let after =
                validate_list-AllValid ns depth (count + 1 + size fl cs) rest (omega arith) in
              rw (room, node_error-valid f cs own, l, within, under)
                (after ∙ ap counted (omega arith))
        ]
        | inr l ↦
            let all : count + (1 + 0 + size fl ns) ≤ max_node_count = rw l at few in
            let room : ltb max_node_count (count + 1) ≡ false = ground arith in
            let after = validate_list-AllValid ns depth (count + 1) rest (omega arith) in
            rw (room, node_error-valid f cs own, l) (after ∙ ap counted (omega arith))
      ]

  -- Validate accepts a program exactly if the program has a name, a step and a repeat of at least
  -- 1; each of its nodes is a setHold within the device's envelope with a valid advance condition,
  -- a ramp within the envelope over a positive time, or a loop that repeats non-empty children;
  -- the loops are nested to the depth 5 at most; and there are 200 nodes at most.
  pub validate-none_iff :
      (trim_space : String → String) (p : Program fl)
      → (validate fl trim_space p ≡ none) ↔ IsRunnable fl trim_space p
  unfolding validate validate_nodes
  validate-none_iff trim_space p = (
    validate-IsRunnable fl trim_space p,
    λ (named, steps, repeats, all, few).
        let some_steps = is_empty-no_nodes p.steps steps in
        let once : ltb p.repeat 1 ≡ false = ground arith in
        let counts = validate_list-AllValid p.steps 1 0 all (omega (arith, few)) in
        rw (named, some_steps, once, counts, validate) refl,
  )
