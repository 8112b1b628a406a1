-- ===== src/Sequence/Run/Walk.antt =====
-- The effects of a whole run of manager.go.
use dps150_web.Base.{
  ℕ, suc, ◌+◌, ◌≤◌, ◌≡◌, ◌≢◌, refl, ap, ◌∙◌, Bool, true, false, List, [], ◌∷◌, ◌++◌, Option, none,
  some, arith, ◌⊎◌, inl, inr, All,
}
use mathlib.Core.Path.{subst}
use Prim.Native.String.{String}
use text.Mathlib.Text as Text
use dps150_web.Float.{Floats}
use dps150_web.Hub.Command.{CommandError}
use dps150_web.Hub.Safety.Exclusion.{safe_output_off-last}
use dps150_web.Sequence.Program.{Fields, Nodes, no_nodes, node, Program, validate}
use dps150_web.Sequence.Program.Validation.{IsSetHold, IsRamp, AllValid, validate-IsRunnable}
use dps150_web.Sequence.Run.{
  RunState, running, Effect, progress, released, journaled, World, Outcome, emit, run_ramp, enter,
  times, run_node, and_then, run_nodes, drive, terminal_state, offs, output_off, finish, execute,
}
use dps150_web.Sequence.Run.Drives.{
  IsDriven, Drives, Drives-refl, Drives-trans, Drives-emit, Drives-set_hold, Drives-ramp_loop,
  Drives-times, same_target,
}

module _ (fl : Floats) (reply : List (Effect fl) → Option CommandError) where
  Drives-and_then :
      (w : World fl) (r : Outcome fl) (next : World fl → Outcome fl)
      → Drives fl reply w r.0
      → ((v : World fl) → Drives fl reply v (next v).0)
      → Drives fl reply w (and_then fl reply r next).0
  Drives-and_then w (v, some x) next d keep = d
  Drives-and_then w (v, none) next d keep = Drives-trans fl reply w v (next v).0 d (keep v)

  Drives-run_node :
      (f : Fields fl) (cs : Nodes fl) (looped : Outcome fl) (w : World fl)
      → (((Text.◌==◌ f.type "setHold") ≡ true) × IsSetHold fl f)
        ⊎ (((Text.◌==◌ f.type "ramp") ≡ true) × IsRamp fl f)
        ⊎ (((Text.◌==◌ f.type "loop") ≡ true) × (1 ≤ f.repeat) × (cs ≢ no_nodes))
      → (Text.◌==◌ f.type "loop" ≡ true → Drives fl reply w looped.0)
      → Drives fl reply w (run_node fl reply f looped w).0
  unfolding run_node run_ramp
  Drives-run_node f cs looped w (inl (t, ok)) d = rw (t, run_node) (Drives-set_hold fl reply f w ok)
  Drives-run_node f cs looped w (inr (inl (t, ok))) d =
      let other : Text.◌==◌ f.type "setHold" ≡ false =
        ap (λ s. Text.◌==◌ s "setHold") (same_target fl reply f.type "ramp" t) in
      rw (other, t, run_node) (Drives-ramp_loop fl reply f w.inputs none none w ok)
  Drives-run_node f cs looped w (inr (inr (t, n, ne))) d =
      let named = same_target fl reply f.type "loop" t in
      let hold : Text.◌==◌ f.type "setHold" ≡ false = ap (λ s. Text.◌==◌ s "setHold") named in
      let ramp : Text.◌==◌ f.type "ramp" ≡ false = ap (λ s. Text.◌==◌ s "ramp") named in
      rw (hold, ramp, t, run_node) (d t)

  Drives-run_nodes :
      (ns : Nodes fl) (depth : ℕ) (parent : List ℕ) (i : ℕ) (w : World fl)
      → AllValid fl depth ns
      → Drives fl reply w (run_nodes fl reply ns parent i w).0
  unfolding run_nodes
  Drives-run_nodes no_nodes depth parent i w ok = Drives-refl fl reply w
  Drives-run_nodes (node f cs rest) depth parent i w (own, loop, ok) =
      let path = parent ++ i ∷ [] in
      let at = enter fl reply path w in
      let body = λ (v : World fl). run_nodes fl reply cs path 0 v in
      let looped = times fl reply f.repeat body at in
      let below : Text.◌==◌ f.type "loop" ≡ true → Drives fl reply at looped.0 = λ t. elim loop [
        | inl plain ↦ absurd (cc)
        | inr (deep, valid) ↦
            Drives-times fl reply f.repeat body
              (λ v. Drives-run_nodes cs (depth + 1) path 0 v valid) at
      ] in
      Drives-and_then w (run_node fl reply f looped at)
        (λ v. run_nodes fl reply rest parent (i + 1) v)
        (Drives-trans fl reply w at (run_node fl reply f looped at).0
          (Drives-emit fl reply w (progress running path) tt)
          (Drives-run_node f cs looped at own below))
        (λ v. Drives-run_nodes rest depth parent (i + 1) v ok)

  Drives-drive :
      (p : Program fl) (w : World fl)
      → AllValid fl 1 p.steps
      → Drives fl reply w (drive fl reply p w).0
  unfolding drive
  Drives-drive p w ok =
      Drives-times fl reply p.repeat (λ v. run_nodes fl reply p.steps [] 0 v)
        (λ v. Drives-run_nodes p.steps 1 [] 0 v ok) w

  -- SafeOutputOff makes one to three attempts, and stops at the first that the hub accepts.
  output_off_lem :
      (w : World fl)
      → (made : ℕ) × (1 ≤ made)
        × ((output_off fl reply w).log ≡ w.log ++ offs fl reply made)
        × ((output_off fl reply w).path ≡ w.path)
        × ((reply (w.log ++ offs fl reply made) ≡ none) ⊎ (made ≡ 3))
  unfolding output_off
  output_off_lem w =
      let (k, e, ends) = safe_output_off-last (λ n. reply (w.log ++ offs fl reply (suc n))) in
      (
        suc k,
        omega arith,
        ap (λ r. w.log ++ offs fl reply r.1) e,
        refl,
        elim ends [ inl a ↦ inl a | inr b ↦ inr (ap suc b) ],
      )

  -- From the world `w`, a run has led to `w'` and to the state `state` by effects that leave the output
  -- alone, then attempts to switch it off, and then the release.
  abbrev pub EndsOff : World fl → World fl × RunState → Type 0
  EndsOff w (w', state) =
      (driven : List (Effect fl)) × (made : ℕ) × (path : List ℕ) × All (IsDriven fl reply) driven
      × (1 ≤ made)
      × (w'.log
          ≡ (((w.log ++ progress running w.path ∷ []) ++ driven) ++ offs fl reply made)
            ++ released ∷ progress state path ∷ journaled state ∷ [])
      × ((reply (((w.log ++ progress running w.path ∷ []) ++ driven) ++ offs fl reply made) ≡ none)
          ⊎ (made ≡ 3))

  -- Whatever the hub answers and whatever the run receives, a run of a program that Validate accepts
  -- does this, in order: it writes setpoints within the device's envelope (a ramp's are a part of the
  -- way, 0 to 1, between two such) and reports progress, but does not touch the output; it switches
  -- the output off, until the hub accepts that or three times; and only then it releases the
  -- interlock, reports the terminal state and journals it.
  pub execute-EndsOff :
      (trim_space : String → String) (p : Program fl) (stop : Bool) (w : World fl)
      → validate fl trim_space p ≡ none
      → EndsOff w (execute fl reply p stop w)
  unfolding execute finish
  execute-EndsOff trim_space p stop w e =
      let (named, steps, repeats, all, few) = validate-IsRunnable fl trim_space p e in
      let start = emit fl w (progress running w.path) in
      let walked = (drive fl reply p start).0 in
      let (driven, grown, within) = Drives-drive p start all in
      let (made, some_made, off, same, ends) = output_off_lem walked in
      let state = terminal_state fl reply (drive fl reply p start).1 stop in
      (
        driven,
        made,
        (output_off fl reply walked).path,
        within,
        some_made,
        ap
            (λ l.
              l
              ++ released ∷ progress state (output_off fl reply walked).path ∷ journaled state ∷ [])
            (off ∙ ap (λ l. l ++ offs fl reply made) grown),
        subst (λ l. (reply (l ++ offs fl reply made) ≡ none) ⊎ (made ≡ 3)) grown ends,
      )
