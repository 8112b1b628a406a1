-- ===== src/Notify/Service/Metering.antt =====
-- What metering.go records of the time that the output is on.
use dps150_web.Base.{
  ℕ, ◌≡◌, refl, ap, ◌∙◌, Bool, true, false, List, [], ◌∷◌, ◌++◌, append-nil, Option, none, some,
  All, if◌then◌else◌, ◌⊎◌, inl, inr, Bool-cases,
}
use Prim.Native.String.{String}
use dps150_web.Float.{Floats}
use dps150_web.Hub.State.{
  State, Update, state_snapshot, telemetry, status_change, protection_trip, mode_change,
  output_change, journal_event,
}
use dps150_web.Notify.Settings.{Settings}
use dps150_web.Notify.Service.{
  Config, MeterSession, MeteringSessionData, journaled, mirrored, gained, session_data, Effect,
  Service, Moment, run,
}
use dps150_web.Notify.Service.Independence.{
  entries, Books, books, Shown, opened, booked, keep, keep_all, shown, all_shown, run-books,
}

module _ (fl : Floats) where
  -- Neither the end of the output nor that of the link.
  abbrev pub IsCalm : Update fl × Shown fl → Type 0
  IsCalm (output_change on ts, sh) = on ≡ true
  IsCalm (status_change on transport, sh) = on ≡ true
  IsCalm (protection_trip _ _, sh) = Unit
  IsCalm (mode_change _ _, sh) = Unit
  IsCalm (telemetry _, sh) = Unit
  IsCalm (state_snapshot _, sh) = Unit
  IsCalm (journal_event _ _, sh) = Unit

  -- Nothing that opens a session.
  abbrev pub IsIdle : Update fl × Shown fl → Type 0
  IsIdle (output_change on ts, sh) = on ≡ false
  IsIdle (status_change on transport, sh) = on ≡ false
  IsIdle (protection_trip _ _, sh) = Unit
  IsIdle (mode_change _ _, sh) = Unit
  IsIdle (telemetry _, sh) = Unit
  IsIdle (state_snapshot _, sh) = Unit
  IsIdle (journal_event _ _, sh) = Unit

  -- What a counter went up by from `x` to `y`, or `y` if it went down, as it does when it is reset.
  abbrev pub Gain : fl.Float64 → fl.Float64 → fl.Float64 → Type 0
  Gain x y g =
      ((fl.lt (fl.sub y x) fl.zero64 ≡ false) × (g ≡ fl.sub y x))
      ⊎ ((fl.lt (fl.sub y x) fl.zero64 ≡ true) × (g ≡ y))

  -- The session from the state `x` at the time `on` to the state `y` at the time `off`.
  abbrev pub Spans : ℕ → ℕ → State fl → State fl → MeteringSessionData fl → Type 0
  Spans on off x y d =
      (d.start_ts ≡ on)
      × (d.end_ts ≡ off)
      × Gain x.capacity_ah y.capacity_ah d.capacity_ah
      × Gain x.energy_wh y.energy_wh d.energy_wh

  gained-Gain : (x y : fl.Float64) → Gain x y (gained fl x y)
  gained-Gain x y = elim (Bool-cases (fl.lt (fl.sub y x) fl.zero64)) [
    | inl e ↦ inr (e, rw e refl)
    | inr e ↦ inl (e, rw e refl)
  ]

  keep-calm :
      (j : Bool) (x : MeterSession fl) (log : List (Effect fl)) (u : Update fl) (sh : Shown fl)
      → IsCalm (u, sh)
      → keep fl j (some x, log) u sh ≡ (some x, log)
  keep-calm j x log (output_change true ts) sh c = refl
  keep-calm j x log (output_change false ts) sh c = absurd (cc)
  keep-calm j x log (status_change true t) (now, none, st) c = refl
  keep-calm j x log (status_change true t) (now, some y, st) c = go y.output_on
    where
      go :
          (b : Bool)
          → ◌≡◌ {A = Books fl} (if b then opened fl (some x) now st else some x, log) (some x, log)
      go true = refl
      go false = refl
  keep-calm j x log (status_change false t) sh c = absurd (cc)
  keep-calm j x log (protection_trip _ _) sh c = refl
  keep-calm j x log (mode_change _ _) sh c = refl
  keep-calm j x log (telemetry _) sh c = refl
  keep-calm j x log (state_snapshot _) sh c = refl
  keep-calm j x log (journal_event _ _) sh c = refl

  keep-idle :
      (j : Bool) (log : List (Effect fl)) (u : Update fl) (sh : Shown fl)
      → IsIdle (u, sh)
      → keep fl j (none, log) u sh ≡ (none, log)
  keep-idle j log (output_change true ts) sh c = absurd (cc)
  keep-idle j log (output_change false ts) sh c = ap (λ l. (none, l)) (append-nil log)
  keep-idle j log (status_change true t) sh c = absurd (cc)
  keep-idle j log (status_change false t) sh c = refl
  keep-idle j log (protection_trip _ _) sh c = refl
  keep-idle j log (mode_change _ _) sh c = refl
  keep-idle j log (telemetry _) sh c = refl
  keep-idle j log (state_snapshot _) sh c = refl
  keep-idle j log (journal_event _ _) sh c = refl

  keep_all-calm :
      (j : Bool) (x : MeterSession fl) (log : List (Effect fl)) (us : List (Update fl × Shown fl))
      → All IsCalm us
      → keep_all fl j (some x, log) us ≡ (some x, log)
  keep_all-calm j x log [] c = refl
  keep_all-calm j x log ((u, sh) ∷ us) (c, cs) =
      ap (λ b. keep_all fl j b us) (keep-calm j x log u sh c) ∙ keep_all-calm j x log us cs

  keep_all-idle :
      (j : Bool) (log : List (Effect fl)) (us : List (Update fl × Shown fl))
      → All IsIdle us
      → keep_all fl j (none, log) us ≡ (none, log)
  keep_all-idle j log [] c = refl
  keep_all-idle j log ((u, sh) ∷ us) (c, cs) =
      ap (λ b. keep_all fl j b us) (keep-idle j log u sh c) ∙ keep_all-idle j log us cs

  keep_all-append :
      (j : Bool) (b : Books fl) (us vs : List (Update fl × Shown fl))
      → keep_all fl j b (us ++ vs) ≡ keep_all fl j (keep_all fl j b us) vs
  keep_all-append j b [] vs = refl
  keep_all-append j b ((u, sh) ∷ us) vs = keep_all-append j (keep fl j b u sh) us vs

  all_shown-append :
      (us vs : List (Update fl × Moment fl))
      → all_shown fl (us ++ vs) ≡ all_shown fl us ++ all_shown fl vs
  all_shown-append [] vs = refl
  all_shown-append ((u, m) ∷ us) vs = ap (λ l. (u, shown fl m) ∷ l) (all_shown-append us vs)

  module _ (cfg : Config) (unmarshal : String → Option Settings) where
    -- If no session is open when the output goes on, neither the output nor the link goes off until the output goes off again,
    -- and the hub's cache holds a state at both of these events, then, whatever else happens in between and whatever is
    -- repeated, the service makes the entry of one session, in the journal if there is one and to the subscribers, with the
    -- times of exactly these two events, and for each of the capacity and the energy the difference of that counter between them, or its value
    -- at the second if it went down. No session is open then, and
    -- as long as neither the output nor the link comes on again there is no other entry.
    pub run-session :
        (s : Service fl) (on_ts off_ts : ℕ) (m n : Moment fl) (x y : State fl)
        (mid rest : List (Update fl × Moment fl))
        → s.session ≡ none
        → m.first ≡ some x
        → n.first ≡ some y
        → All IsCalm (all_shown fl mid)
        → All IsIdle (all_shown fl rest)
        → (d : MeteringSessionData fl) × Spans on_ts off_ts x y d
          × (books fl (
                run fl cfg unmarshal s
                  ((output_change true on_ts, m) ∷ mid ++ (output_change false off_ts, n) ∷ rest))
              ≡ (
                none,
                entries fl s.log
                    ++ ((if cfg.journaling then journaled d ∷ [] else []) ++ mirrored d ∷ []),
              ))
    run-session s on_ts off_ts m n x y mid rest idle at_on at_off calm quiet =
        let j = cfg.journaling in
        let log = entries fl s.log in
        let sess : MeterSession fl = record {
          start_ts = on_ts;
          start_ah = x.capacity_ah;
          start_wh = x.energy_wh;
        } in
        let later = (output_change false off_ts, n) ∷ rest in
        let begun : (opened fl s.session on_ts m.first, log) ≡ (some sess, log) =
          ap (λ o. (opened fl o on_ts m.first, log)) idle
          ∙ ap (λ o. (opened fl none on_ts o, log)) at_on in
        let done = log ++ booked fl j (some sess) off_ts n.first in
        (
          session_data fl sess y off_ts,
          (
            refl,
            refl,
            gained-Gain x.capacity_ah y.capacity_ah,
            gained-Gain x.energy_wh y.energy_wh,
          ),
          run-books fl cfg unmarshal ((output_change true on_ts, m) ∷ mid ++ later) s
              ∙ ap (λ b. keep_all fl j b (all_shown fl (mid ++ later))) begun
              ∙ ap (keep_all fl j (some sess, log)) (all_shown-append mid later)
              ∙ keep_all-append j (some sess, log) (all_shown fl mid) (all_shown fl later)
              ∙ ap (λ b. keep_all fl j b (all_shown fl later))
                  (keep_all-calm j sess log (all_shown fl mid) calm)
              ∙ keep_all-idle j done (all_shown fl rest) quiet
              ∙ ap (λ o. (none, log ++ booked fl j (some sess) off_ts o)) at_off,
        )
