-- ===== src/Sequence/Run/Ramp.antt =====
-- How the loop of runRamp ends.
use dps150_web.Base.{
  ℕ, ◌≡◌, refl, ap, Bool, true, false, List, [], ◌∷◌, ◌++◌, Option, none, some, arith, Option-cases,
  inl, inr,
}
use text.Mathlib.Text as Text
use dps150_web.Float.{Floats}
use dps150_web.Hub.Command.{CommandError}
use dps150_web.Sequence.Program.{Fields}
use dps150_web.Sequence.Run.{
  Input, Effect, voltage, Seen, skipped, got, gone, see, World, Outcome, call, ramp_fraction,
  ramp_value, too_soon, ramp_write, ramp_tick, ramp_loop,
}

module _ (fl : Floats) (reply : List (Effect fl) → Option CommandError) where
  -- The last thing that was done is the write of the voltage `v`.
  abbrev pub Wrote : fl.Float64 → World fl → Type 0
  Wrote v w = (xs : List (Effect fl)) × (w.log ≡ xs ++ voltage v ∷ [])

  ramp_fraction-over :
      (f : Fields fl) (start ts : ℕ)
      → (ramp_fraction fl reply f start ts).1 ≡ true
      → (ramp_fraction fl reply f start ts).0 ≡ fl.decimal 1 0
  unfolding ramp_fraction
  ramp_fraction-over f start ts e = ground arith

  ramp_tick-Wrote :
      (f : Fields fl) (frac : fl.Float64) (over soon : Bool) (is : List (Input fl))
      (quiet : Outcome fl) (rest : World fl → Outcome fl) (w : World fl)
      → Text.◌==◌ f.target "voltage" ≡ true
      → (over ≡ true → frac ≡ fl.decimal 1 0)
      → (quiet.1 ≡ none → Wrote (ramp_value fl reply f (fl.decimal 1 0)) quiet.0)
      → ((v : World fl)
          → (rest v).1 ≡ none
          → Wrote (ramp_value fl reply f (fl.decimal 1 0)) (rest v).0)
      → (ramp_tick fl reply f frac over soon is quiet rest w).1 ≡ none
      → Wrote
          (ramp_value fl reply f (fl.decimal 1 0))
          (ramp_tick fl reply f frac over soon is quiet rest w).0
  unfolding ramp_tick
  ramp_tick-Wrote f frac false true is quiet rest w t end still more e = still e
  ramp_tick-Wrote f frac false false is quiet rest w t end still more e =
      elim (Option-cases (reply (w.log ++ voltage (ramp_value fl reply f frac) ∷ []))) [
        | inl a ↦ rw (t, a, ramp_write, call) (more _ (rw (t, a, ramp_write, call) at e))
        | inr (x, a) ↦ absurd (ground arith)
      ]
  ramp_tick-Wrote f frac true soon is quiet rest w t end still more e =
      elim (Option-cases (reply (w.log ++ voltage (ramp_value fl reply f frac) ∷ []))) [
        | inl a ↦
            rw (t, a, ramp_write, call)
              (w.log, ap (λ x. w.log ++ voltage (ramp_value fl reply f x) ∷ []) (end refl))
        | inr (x, a) ↦ absurd (ground arith)
      ]

  -- A voltage ramp that ends without an error has written from + (to - from) * 1.0, in floating-point numbers, as the last thing
  -- that it did: no tick on the way can skip it.
  pub ramp_loop-Wrote :
      (f : Fields fl) (is : List (Input fl)) (start last : Option ℕ) (w : World fl)
      → Text.◌==◌ f.target "voltage" ≡ true
      → (ramp_loop fl reply f is start last w).1 ≡ none
      → Wrote
          (fl.add f.from (fl.mul (fl.sub f.to f.from) (fl.decimal 1 0)))
          (ramp_loop fl reply f is start last w).0
  unfolding ramp_loop
  ramp_loop-Wrote f [] start last w t e = absurd (cc)
  ramp_loop-Wrote f (i ∷ is) start last w t e =
      go (see fl i) refl e (λ s l v. ramp_loop-Wrote f is s l v t)
    where
      go :
          (r : Seen fl)
          → see fl i ≡ r
          → (ramp_loop fl reply f (i ∷ is) start last w).1 ≡ none
          → ((s l : Option ℕ) (v : World fl)
              → (ramp_loop fl reply f is s l v).1 ≡ none
              → Wrote (ramp_value fl reply f (fl.decimal 1 0)) (ramp_loop fl reply f is s l v).0)
          → Wrote
              (ramp_value fl reply f (fl.decimal 1 0))
              (ramp_loop fl reply f (i ∷ is) start last w).0
      go skipped x e more = rw (x, ramp_loop) (more start last w (rw (x, ramp_loop) at e))
      go (gone y) x e more = absurd (ground arith)
      go (got u) x e more =
          let from : ℕ = elim start [ none ↦ u.ts | some s ↦ s ] in
          let (frac, over) = ramp_fraction fl reply f from u.ts in
          rw (x, ramp_loop)
            (ramp_tick-Wrote f frac over (too_soon fl reply last u.ts) is
              (ramp_loop fl reply f is (some from) last w)
              (λ v. ramp_loop fl reply f is (some from) (some u.ts) v) w t
              (ramp_fraction-over f from u.ts) (more (some from) last w)
              (more (some from) (some u.ts)) (rw (x, ramp_loop) at e))
