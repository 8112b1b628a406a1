-- ===== src/Hub/Apply/Invariant.antt =====
-- The steps of the hub (apply.go, hub.go) along a trace: its link and its state.
use dps150_web.Base.{
  ◌⊎◌, inl, inr, ℕ, ◌≡◌, ◌≢◌, refl, ap, Bool, false, not, List, [], ◌∷◌, ◌++◌, none, some, arith,
  Bool-cases, Option-cases, inl, inr,
}
use Prim.Native.String.{String}
use dps150_web.Float.{Floats}
use dps150_web.Protocol.Frame.{Frame}
use dps150_web.Protocol.Event.{
  Event, output_state, protection_state, cccv_mode, device_info, full_dump, FullDump,
}
use dps150_web.Protocol.Decode.{Result, ok, err, panic, decode}
use dps150_web.Hub.State.{
  state_snapshot, telemetry, status_change, protection_trip, mode_change, output_change,
  journal_event, State,
}
use dps150_web.Hub.Apply.{
  Hub, Updates, apply, apply_dump, changes, handle_frame, open_session, close_session, drop_conn,
  update_state, new_hub,
}

module _ (fl : Floats) where
  -- A connected hub has a state.
  abbrev pub IsSound : Hub fl → Type 0
  IsSound h = (h.connected ≡ false) ⊎ (h.state ≢ none)

  -- The link transitions among the updates.
  abbrev pub links : Updates fl → List Bool
  links [] = []
  links (status_change on _ ∷ us) = on ∷ links us
  links (state_snapshot _ ∷ us) = links us
  links (telemetry _ ∷ us) = links us
  links (protection_trip _ _ ∷ us) = links us
  links (mode_change _ _ ∷ us) = links us
  links (output_change _ _ ∷ us) = links us
  links (journal_event _ _ ∷ us) = links us

  -- `Alternates a l b`: from the link state `a`, each transition of `l` changes the state, and the
  -- last leaves it at `b`.
  abbrev pub Alternates : Bool → List Bool → Bool → Type 0
  Alternates a [] b = a ≡ b
  Alternates a (x ∷ xs) b = (x ≡ not a) × Alternates x xs b

  Alternates-append :
      (a b c : Bool) (xs ys : List Bool)
      → Alternates a xs b
      → Alternates b ys c
      → Alternates a (xs ++ ys) c
  Alternates-append a b c [] ys e q = rw e q
  Alternates-append a b c (x ∷ xs) ys (e, p) q = (e, Alternates-append x b c xs ys p q)

  links-append : (us vs : Updates fl) → links (us ++ vs) ≡ links us ++ links vs
  links-append [] vs = refl
  links-append (status_change on t ∷ us) vs = ap (λ l. on ∷ l) (links-append us vs)
  links-append (state_snapshot _ ∷ us) vs = links-append us vs
  links-append (telemetry _ ∷ us) vs = links-append us vs
  links-append (protection_trip _ _ ∷ us) vs = links-append us vs
  links-append (mode_change _ _ ∷ us) vs = links-append us vs
  links-append (output_change _ _ ∷ us) vs = links-append us vs
  links-append (journal_event _ _ ∷ us) vs = links-append us vs

  -- What one step keeps: the state of a connected hub, and the alternation.
  abbrev Good : Hub fl → Hub fl × Updates fl → Type 0
  Good h (h', us) = (IsSound h → IsSound h') × Alternates h.connected (links us) h'.connected

  links-changes : (prev : State fl) (d : FullDump fl) (now : ℕ) → links (changes fl prev d now) ≡ []
  unfolding changes
  links-changes prev d now = ground arith

  links-dump :
      (h : Hub fl) (d : FullDump fl) (now : ℕ) (vs : Updates fl)
      → links (elim h.state [ none ↦ [] | some prev ↦ changes fl prev d now ] ++ vs) ≡ links vs
  links-dump h d now vs = elim (Option-cases h.state) [
    | inl e ↦ rw e refl
    | inr (prev, e) ↦ rw (e, links-append (changes fl prev d now) vs, links-changes prev d now) refl
  ]

  apply_dump-Good : (h : Hub fl) (d : FullDump fl) (now : ℕ) → Good h (apply_dump fl h d now)
  unfolding apply_dump
  apply_dump-Good h d now = elim (Bool-cases h.connected) [
    | inl e ↦ (λ _. inr (λ q. cc), rw (e, links-dump h d now) refl)
    | inr e ↦ (λ _. inr (λ q. cc), rw (e, links-dump h d now) (refl, refl))
  ]

  apply-Good : (h : Hub fl) (ev : Event fl) (now : ℕ) → Good h (apply fl h ev now)
  unfolding apply
  apply-Good h (full_dump d) now = apply_dump-Good h d now
  apply-Good h (output_state on) now = ground arith
  apply-Good h (protection_state p) now = ground arith
  apply-Good h (cccv_mode m) now = ground arith
  apply-Good h (device_info f v) now = ground arith
  apply-Good h _ now = ground arith

  pub handle_frame-Good : (h : Hub fl) (f : Frame) (now : ℕ) → Good h (handle_frame fl h f now)
  unfolding handle_frame
  handle_frame-Good h f now = go (decode fl f) refl
    where
      go : (r : Result (Event fl)) → decode fl f ≡ r → Good h (handle_frame fl h f now)
      go (ok ev) e = rw (e, handle_frame) (apply-Good h ev now)
      go (err x) e = rw (e, handle_frame) (λ s. s, refl)
      go panic e = rw (e, handle_frame) (λ s. s, refl)

  close_session-Good : (h : Hub fl) → Good h (close_session fl h)
  unfolding close_session
  close_session-Good h = ground arith

  -- What can happen to the hub: a session begins, a frame arrives, a failed write drops the
  -- connection, a successful command changes the cached state but not its output or mode, the
  -- session ends.
  pub data Step : Hub fl → Hub fl → Updates fl → Type 0 where
    opened : {h : Hub fl} (id : ℕ) → Step h (open_session fl h id).0 (open_session fl h id).1
    received :
        {h : Hub fl} (f : Frame) (now : ℕ)
        → Step h (handle_frame fl h f now).0 (handle_frame fl h f now).1
    dropped : {h : Hub fl} (id : ℕ) → Step h (drop_conn fl h id) []
    commanded :
        {h : Hub fl} (c : State fl → State fl)
        → ((st : State fl) → ((c st).output_on ≡ st.output_on) × ((c st).mode ≡ st.mode))
        → Step h (update_state fl h c) []
    closed : {h : Hub fl} → Step h (close_session fl h).0 (close_session fl h).1

  pub data Trace (start : Hub fl) : Hub fl → Updates fl → Type 0 where
    here : Trace start start []
    next :
        {h k : Hub fl} {us vs : Updates fl}
        → Trace start h us
        → Step h k vs
        → Trace start k (us ++ vs)

  Step-Good : {h k : Hub fl} {us : Updates fl} → Step h k us → Good h (k, us)
  unfolding open_session drop_conn update_state
  Step-Good (opened id) = (λ s. s, refl)
  Step-Good (received {h = h} f now) = handle_frame-Good h f now
  Step-Good (dropped {h = h} id) = ground arith
  Step-Good (commanded {h = h} c keeps) = ground arith
  Step-Good (closed {h = h}) = close_session-Good h

  -- From a new hub, whatever sessions, frames, commands and failures follow: a connected hub has a
  -- state, and the StatusChange updates alternate, a connect first, and end with the link's state.
  pub Trace-IsSound :
      (transport : String) {h : Hub fl} {us : Updates fl}
      → Trace (new_hub fl transport) h us
      → IsSound h × Alternates false (links us) h.connected
  Trace-IsSound transport here = unfold new_hub in (inl refl, refl)
  Trace-IsSound transport (next {us = us} {vs = vs} t st) =
      let (sound, alt) = Trace-IsSound transport t in
      let (keeps, more) = Step-Good st in
      (
        keeps sound,
        rw (links-append us vs) (Alternates-append _ _ _ (links us) (links vs) alt more),
      )
