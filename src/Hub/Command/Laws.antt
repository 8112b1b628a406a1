-- ===== src/Hub/Command/Laws.antt =====
-- What the commands of hub.go do to the wire and to the cache, whatever the transport does.
use dps150_web.Base.{
  ℕ, suc, ◌≡◌, ◌≢◌, refl, ap, Bool, true, false, List, [], ◌∷◌, none, arith, Bool-cases,
  Option-cases, ◌⊎◌, inl, inr,
}
use dps150_web.Float.{Floats}
use dps150_web.Protocol.Register
use dps150_web.Protocol.Encode.Commands.{Command, write_float, read_all}
use dps150_web.Hub.State.{State, limits}
use dps150_web.Hub.Apply.{Hub, snapshot_locked, drop_conn, update_state}
use dps150_web.Hub.Command.{
  Outcome, written, refused, stalled, cancelled_writing, cancelled_pacing, Reply, write_frames,
  write, write_then, outside, set_voltage,
}

module _ (fl : Floats) where
  open fl use {Float64}

  -- A command that succeeds has found the device connected and has written all its frames, in order.
  abbrev pub Done : Hub fl → List (Command fl) → List (Command fl) → Type 0
  Done h frames sent = (h.connected ≡ true) × (h.conn ≢ none) × (sent ≡ frames)

  Outcome-cases : (o : Outcome) → (o ≡ written) ⊎ (o ≢ written)
  Outcome-cases written = inl refl
  Outcome-cases (refused b) = inr (λ e. cc)
  Outcome-cases (stalled b) = inr (λ e. cc)
  Outcome-cases cancelled_writing = inr (λ e. cc)
  Outcome-cases cancelled_pacing = inr (λ e. cc)

  write_frames-ok :
      (h : Hub fl) (conn : ℕ) (fs : List (Command fl)) (env : ℕ → Outcome)
      → (write_frames fl h conn fs env).2 ≡ none
      → ((write_frames fl h conn fs env).0 ≡ h) × ((write_frames fl h conn fs env).1 ≡ fs)
  unfolding write_frames
  write_frames-ok h conn [] env e = (refl, refl)
  write_frames-ok h conn (f ∷ fs) env e =
      ground (arith, write_frames-ok h conn fs (λ n. env (suc n)))

  -- Whatever happens, what went out is the begin of the frames, and the cache is not touched.
  write_frames-state :
      (h : Hub fl) (conn : ℕ) (fs : List (Command fl)) (env : ℕ → Outcome)
      → (write_frames fl h conn fs env).0.state ≡ h.state
  unfolding write_frames drop_conn
  write_frames-state h conn [] env = refl
  write_frames-state h conn (f ∷ fs) env =
      ground (arith, write_frames-state h conn fs (λ n. env (suc n)))

  write-ok :
      (h : Hub fl) (fs : List (Command fl)) (env : ℕ → Outcome)
      → (write fl h fs env).2 ≡ none
      → Done h fs (write fl h fs env).1 × ((write fl h fs env).0 ≡ h)
  unfolding write
  write-ok h fs env e = elim (Option-cases h.conn) [
    | inl c ↦ ground arith
    | inr (conn, c) ↦ ground (arith, write_frames-ok h conn fs env)
  ]

  write-state :
      (h : Hub fl) (fs : List (Command fl)) (env : ℕ → Outcome)
      → (write fl h fs env).0.state ≡ h.state
  unfolding write
  write-state h fs env = elim (Option-cases h.conn) [
    | inl c ↦ ground arith
    | inr (conn, c) ↦ ground (arith, write_frames-state h conn fs env)
  ]

  write_then-ok :
      (h : Hub fl) (fs : List (Command fl)) (env : ℕ → Outcome) (change : State fl → State fl)
      → (write_then fl h fs env change).2 ≡ none
      → Done h fs (write_then fl h fs env change).1
        × ((write_then fl h fs env change).0 ≡ update_state fl h change)
  unfolding write_then
  write_then-ok h fs env change e = elim (Option-cases (write fl h fs env).2) [
    | inl n ↦
        let (done, same) = write-ok h fs env n in
        rw (n, write_then) (done, ap (λ k. update_state fl k change) same)
    | inr (x, s) ↦ absurd (ground arith)
  ]

  write_then-err :
      (h : Hub fl) (fs : List (Command fl)) (env : ℕ → Outcome) (change : State fl → State fl)
      → (write_then fl h fs env change).2 ≢ none
      → (write_then fl h fs env change).0.state ≡ h.state
  unfolding write_then
  write_then-err h fs env change e = ground (arith, write-state h fs env)

  -- Either the command is done and the cache changed, or there is an error and the cache is as it
  -- was.
  abbrev pub Atomic : Hub fl → List (Command fl) → (State fl → State fl) → Reply fl → Type 0
  Atomic h fs change (h', sent, e) =
      ((e ≡ none) × Done h fs sent × (h' ≡ update_state fl h change))
      ⊎ ((e ≢ none) × (h'.state ≡ h.state))

  pub write_then-Atomic :
      (h : Hub fl) (fs : List (Command fl)) (env : ℕ → Outcome) (change : State fl → State fl)
      → Atomic h fs change (write_then fl h fs env change)
  write_then-Atomic h fs env change = elim (Option-cases (write_then fl h fs env change).2) [
    | inl n ↦ let (done, same) = write_then-ok h fs env change n in inl (n, done, same)
    | inr (x, s) ↦
        let failed : (write_then fl h fs env change).2 ≢ none = λ n. cc in
        inr (failed, write_then-err h fs env change failed)
  ]

  -- SetVoltage either returns nil, with the voltage within the limits, the device connected, exactly
  -- the setpoint and a GetAll written, and the voltage cached; or it returns an error and leaves the
  -- cache as it was.
  pub set_voltage_lem :
      (h : Hub fl) (cancelled : Bool) (volts : Float64) (env : ℕ → Outcome) (now : ℕ)
      → (((set_voltage fl h cancelled volts env now).2 ≢ none)
          ⊎ (outside fl volts (limits fl (snapshot_locked fl h)).0 ≡ false))
        × Atomic h
            (write_float Register.reg_voltage_set (fl.narrow volts) ∷ read_all ∷ [])
            (λ st. record st { set_voltage = volts; updated_at = now })
            (set_voltage fl h cancelled volts env now)
  unfolding set_voltage
  set_voltage_lem h true volts env now = (inl (λ n. cc), inr (λ n. cc, refl))
  set_voltage_lem h false volts env now =
      elim (Bool-cases (outside fl volts (limits fl (snapshot_locked fl h)).0)) [
        | inl out ↦ rw (out, set_voltage) (inl (λ n. cc), inr (λ n. cc, refl))
        | inr fits ↦ rw (fits, set_voltage) (inr refl, write_then-Atomic h _ env _)
      ]
