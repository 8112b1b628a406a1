-- ===== src/Hub/Apply/Mirror.antt =====
-- A subscriber that gathers the output and the mode of the device from the updates of apply.go.
use dps150_web.Base.{
  ℕ, ◌≡◌, refl, Bool, [], ◌∷◌, ◌++◌, Option, none, some, arith, Bool-cases, Option-cases, ◌⊎◌, inl,
  inr, ◌==◌,
}
use Prim.Native.String.{String}
use dps150_web.Float.{Floats}
use dps150_web.Protocol.Event.{
  Event, output_state, protection_state, cccv_mode, device_info, full_dump, FullDump,
}
use dps150_web.Protocol.Decode.{Result, ok, err, panic, decode}
use dps150_web.Hub.State.{
  Update, state_snapshot, telemetry, status_change, protection_trip, mode_change, output_change,
  journal_event, State,
}
use dps150_web.Hub.Apply.{
  Hub, Updates, apply, apply_dump, handle_frame, open_session, close_session, drop_conn,
  update_state, new_hub,
}
use dps150_web.Hub.Apply.Invariant.{
  Step, opened, received, dropped, commanded, closed, Trace, here, next,
}

module _ (fl : Floats) where
  pub record Mirror : Type 0 where
    pub output : Option Bool
    pub mode : Option ℕ

  -- What a subscriber learns from one update, and from several.
  abbrev pub follow : Mirror → Update fl → Mirror
  follow m (telemetry t) = record { output = some t.output_on; mode = some t.mode }
  follow m (state_snapshot s) = elim s.state [
    | none ↦ m
    | some st ↦ record { output = some st.output_on; mode = some st.mode }
  ]
  follow m (output_change on _) = record m { output = some on }
  follow m (mode_change k _) = record m { mode = some k }
  follow m (protection_trip _ _) = m
  follow m (status_change _ _) = m
  follow m (journal_event _ _) = m

  abbrev pub follow_all : Mirror → Updates fl → Mirror
  follow_all m [] = m
  follow_all m (u ∷ us) = follow_all (follow m u) us

  -- What the subscriber believes of the output and of the mode, the cache holds.
  abbrev pub Agrees : Mirror → Option (State fl) → Type 0
  Agrees m none = (m.output ≡ none) × (m.mode ≡ none)
  Agrees m (some st) =
      ((m.output ≡ none) ⊎ (m.output ≡ some st.output_on))
      × ((m.mode ≡ none) ⊎ (m.mode ≡ some st.mode))

  follow_all-append :
      (m : Mirror) (us vs : Updates fl) → follow_all m (us ++ vs) ≡ follow_all (follow_all m us) vs
  follow_all-append m [] vs = refl
  follow_all-append m (u ∷ us) vs = follow_all-append (follow m u) us vs

  apply_dump-Agrees :
      (m : Mirror) (h : Hub fl) (d : FullDump fl) (now : ℕ)
      → let (h', us) = apply_dump fl h d now in Agrees (follow_all m us) h'.state
  unfolding apply_dump
  apply_dump-Agrees m h d now = rw follow_all-append (inr refl, inr refl)

  apply-Agrees :
      (m : Mirror) (h : Hub fl) (ev : Event fl) (now : ℕ)
      → Agrees m h.state
      → let (h', us) = apply fl h ev now in Agrees (follow_all m us) h'.state
  unfolding apply
  apply-Agrees m h (full_dump d) now a = apply_dump-Agrees m h d now
  apply-Agrees m h (output_state on) now a = ground arith
  apply-Agrees m h (protection_state p) now a = ground arith
  apply-Agrees m h (cccv_mode k) now a = ground arith
  apply-Agrees m h (device_info f v) now a = ground arith
  apply-Agrees m h _ now a = ground arith

  Step-Agrees :
      {h k : Hub fl} {us : Updates fl} (m : Mirror)
      → Step fl h k us
      → Agrees m h.state
      → Agrees (follow_all m us) k.state
  unfolding open_session close_session drop_conn update_state handle_frame
  Step-Agrees m (opened id) a = a
  Step-Agrees m (received {h = h} f now) a = go (decode fl f) refl
    where
      go :
          (r : Result (Event fl))
          → decode fl f ≡ r
          → let (h', us) = handle_frame fl h f now in Agrees (follow_all m us) h'.state
      go (ok ev) e = rw (e, handle_frame) (apply-Agrees m h ev now a)
      go (err x) e = rw (e, handle_frame) a
      go panic e = rw (e, handle_frame) a
  Step-Agrees m (dropped {h = h} id) a = elim (Option-cases h.conn) [
    | inl e ↦ rw (e, drop_conn) a
    | inr (c, e) ↦ elim (Bool-cases (c == id)) [
      | inl q ↦ rw (e, q, drop_conn) a
      | inr q ↦ rw (e, q, drop_conn) a
    ]
  ]
  Step-Agrees m (commanded {h = h} c keeps) a = elim (Option-cases h.state) [
    | inl e ↦ rw (e, update_state) a
    | inr (st, e) ↦ let (out, mode) = keeps st in rw (e, update_state) (rw (out, mode) (rw e at a))
  ]
  Step-Agrees m (closed {h = h}) a = ground arith

  -- From a new hub on, and whatever steps follow, a subscriber that has seen every update believes
  -- of the output and of the mode nothing that the cache does not hold.
  pub Trace-Agrees :
      (transport : String) {h : Hub fl} {us : Updates fl}
      → Trace fl (new_hub fl transport) h us
      → Agrees (follow_all (record { output = none; mode = none }) us) h.state
  Trace-Agrees transport here = unfold new_hub in (refl, refl)
  Trace-Agrees transport (next {us = us} {vs = vs} t st) =
      rw (follow_all-append _ us vs) (Step-Agrees _ st (Trace-Agrees transport t))
