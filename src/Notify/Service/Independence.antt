-- ===== src/Notify/Service/Independence.antt =====
-- The sessions of metering.go beside the notifications of notifier.go.
use dps150_web.Base.{
  ℕ, ◌≡◌, refl, sym, ap, ◌∙◌, Bool, true, false, not, ◌&&◌, List, [], ◌∷◌, ◌++◌, append_assoc,
  append-nil, Option, none, some, if◌then◌else◌, Bool-cases, Option-cases, inl, inr,
}
use Prim.Native.String.{String}
use dps150_web.Float.{Floats}
use dps150_web.Hub.State.{
  State, Update, state_snapshot, telemetry, status_change, protection_trip, mode_change,
  output_change, journal_event,
}
use dps150_web.Notify.Settings.{
  Kind, device_link, metering_session, Settings, enabled, Loaded, load_settings,
}
use dps150_web.Notify.Settings
use dps150_web.Notify.Service.{
  Config, MeterSession, MeteringSessionData, Message, link_restored, link_lost, output_on,
  output_off, session_over, Effect, journaled, mirrored, notified, Service, Moment, log_effect,
  current_settings, notify, start_session, resume_session_on_connect, abort_session, session_data,
  record_session, finish_session, protection_text, after_session, handle_status, handle_output,
  handle, run,
}

module _ (fl : Floats) where
  -- A log without its notifications.
  abbrev pub entries : List (Effect fl) → List (Effect fl)
  entries [] = []
  entries (journaled d ∷ es) = journaled d ∷ entries es
  entries (mirrored d ∷ es) = mirrored d ∷ entries es
  entries (notified k m ∷ es) = entries es

  pub entries-append : (xs ys : List (Effect fl)) → entries (xs ++ ys) ≡ entries xs ++ entries ys
  entries-append [] ys = refl
  entries-append (journaled d ∷ xs) ys = ap (λ l. journaled d ∷ l) (entries-append xs ys)
  entries-append (mirrored d ∷ xs) ys = ap (λ l. mirrored d ∷ l) (entries-append xs ys)
  entries-append (notified k m ∷ xs) ys = entries-append xs ys

  -- The session that is open, and the entries that have been made.
  abbrev pub Books : Type 0
  Books = Option (MeterSession fl) × List (Effect fl)

  abbrev pub books : Service fl → Books
  books s = (s.session, entries s.log)

  -- What the update of the books is told: the time, and the states of the first and the second snapshot.
  abbrev pub Shown : Type 0
  Shown = ℕ × Option (State fl) × Option (State fl)

  abbrev pub opened : Option (MeterSession fl) → ℕ → Option (State fl) → Option (MeterSession fl)
  opened (some sess) ts st = some sess
  opened none ts none = none
  opened none ts (some x) =
      some (record { start_ts = ts; start_ah = x.capacity_ah; start_wh = x.energy_wh })

  abbrev pub resumed :
      Option (MeterSession fl)
      → ℕ
      → Option (State fl)
      → Option (State fl)
      → Option (MeterSession fl)
  resumed sess ts none st = sess
  resumed sess ts (some x) st = if x.output_on then opened sess ts st else sess

  abbrev pub booked : Bool → Option (MeterSession fl) → ℕ → Option (State fl) → List (Effect fl)
  booked journaling none ts st = []
  booked journaling (some sess) ts none = []
  booked journaling (some sess) ts (some x) =
      let d = session_data fl sess x ts in
      (if journaling then journaled d ∷ [] else []) ++ mirrored d ∷ []

  -- The bookkeeping on its own, without settings, senders and messages.
  abbrev pub keep : Bool → Books → Update fl → Shown → Books
  keep j (sess, log) (output_change true ts) (now, st, st') = (opened sess ts st, log)
  keep j (sess, log) (output_change false ts) (now, st, st') = (none, log ++ booked j sess ts st)
  keep j (sess, log) (status_change true _) (now, st, st') = (resumed sess now st st', log)
  keep j (sess, log) (status_change false _) (now, st, st') = (none, log)
  keep j (sess, log) (protection_trip _ _) sh = (sess, log)
  keep j (sess, log) (mode_change _ _) sh = (sess, log)
  keep j (sess, log) (telemetry _) sh = (sess, log)
  keep j (sess, log) (state_snapshot _) sh = (sess, log)
  keep j (sess, log) (journal_event _ _) sh = (sess, log)

  abbrev pub keep_all : Bool → Books → List (Update fl × Shown) → Books
  keep_all j b [] = b
  keep_all j b ((u, sh) ∷ us) = keep_all j (keep j b u sh) us

  abbrev pub shown : Moment fl → Shown
  shown m = (m.now, m.first, m.second)

  abbrev pub all_shown : List (Update fl × Moment fl) → List (Update fl × Shown)
  all_shown [] = []
  all_shown ((u, m) ∷ us) = (u, shown m) ∷ all_shown us

  module _ (cfg : Config) (unmarshal : String → Option Settings) where
    current_settings-books :
        (loaded : Loaded) (s : Service fl)
        → books (current_settings fl cfg unmarshal loaded s).0 ≡ books s
    unfolding current_settings
    current_settings-books loaded s = elim (Bool-cases (not cfg.storing)) [
      | inl e ↦ rw (e, current_settings) refl
      | inr e ↦ elim (Option-cases (load_settings unmarshal loaded)) [
        | inl f ↦ rw (e, current_settings) (rw f refl)
        | inr (x, f) ↦ rw (e, current_settings) (rw f refl)
      ]
    ]

    -- A notification leaves the books alone.
    pub notify-books :
        (loaded : Loaded) (kind : Kind) (text : Message fl) (s : Service fl)
        → books (notify fl cfg unmarshal loaded kind text s) ≡ books s
    unfolding notify
    notify-books loaded kind text s =
        go cfg.configured settings.telegram_enabled (enabled settings.events kind)
      where
        settings : Settings
        settings = (current_settings fl cfg unmarshal loaded s).1

        kept : Service fl
        kept = (current_settings fl cfg unmarshal loaded s).0

        same : books kept ≡ books s
        same = current_settings-books loaded s

        go :
            (b c d : Bool)
            → books (
                if not b
                then s
                else if c && d
                then log_effect fl kept (notified kind text)
                else kept)
              ≡ books s
        go false c d = refl
        go true false d = same
        go true true false = same
        go true true true =
            ap (λ l. (kept.session, l))
              (entries-append kept.log (notified kind text ∷ []) ∙ append-nil (entries kept.log))
            ∙ same

    start_session-books :
        (ts : ℕ) (st : Option (State fl)) (s : Service fl)
        → books (start_session fl ts st s) ≡ (opened s.session ts st, entries s.log)
    unfolding start_session
    start_session-books ts st s = go s.session st refl
      where
        go :
            (o : Option (MeterSession fl)) (st : Option (State fl))
            → s.session ≡ o
            → books (elim o as (λ _. Service fl) [
              | some already ↦ s
              | none ↦ elim st as (λ _. Service fl) [
                | none ↦ s
                | some x ↦ record s {
                  session =
                      some (record {
                        start_ts = ts;
                        start_ah = x.capacity_ah;
                        start_wh = x.energy_wh;
                      });
                }
              ]
            ])
              ≡ (opened o ts st, entries s.log)
        go (some a) st e = ap (λ x. (x, entries s.log)) e
        go none none e = ap (λ x. (x, entries s.log)) e
        go none (some x) e = refl

    resume-books :
        (ts : ℕ) (seen st : Option (State fl)) (s : Service fl)
        → books (resume_session_on_connect fl ts seen st s)
          ≡ (resumed s.session ts seen st, entries s.log)
    unfolding resume_session_on_connect
    resume-books ts none st s = refl
    resume-books ts (some x) st s = go x.output_on
      where
        go :
            (b : Bool)
            → books (if b then start_session fl ts st s else s)
              ≡ (if b then opened s.session ts st else s.session, entries s.log)
        go true = start_session-books ts st s
        go false = refl

    record_session-books :
        (d : MeteringSessionData fl) (s : Service fl)
        → books (record_session fl cfg d s) ≡ (
          none,
          entries s.log ++ ((if cfg.journaling then journaled d ∷ [] else []) ++ mirrored d ∷ []),
        )
    record_session-books d s = go cfg.journaling
      where
        go :
            (b : Bool)
            → books (
                log_effect fl
                  (if b
                    then log_effect fl (record s { session = none }) (journaled d)
                    else record s { session = none })
                  (mirrored d))
              ≡ (none, entries s.log ++ ((if b then journaled d ∷ [] else []) ++ mirrored d ∷ []))
        go true =
            ap (λ l. (none, l))
              (entries-append (s.log ++ journaled d ∷ []) (mirrored d ∷ [])
                ∙ ap (λ l. l ++ mirrored d ∷ []) (entries-append s.log (journaled d ∷ []))
                ∙ append_assoc (entries s.log) (journaled d ∷ []) (mirrored d ∷ []))
        go false = ap (λ l. (none, l)) (entries-append s.log (mirrored d ∷ []))

    finish_session-books :
        (loaded : Loaded) (ts : ℕ) (st : Option (State fl)) (s : Service fl)
        → books (finish_session fl cfg unmarshal loaded ts st s)
          ≡ (none, entries s.log ++ booked cfg.journaling s.session ts st)
    unfolding finish_session
    finish_session-books loaded ts st s = go s.session st refl
      where
        go :
            (o : Option (MeterSession fl)) (st : Option (State fl))
            → s.session ≡ o
            → books (elim o as (λ _. Service fl) [
              | none ↦ s
              | some sess ↦ elim st as (λ _. Service fl) [
                | none ↦ record s { session = none }
                | some x ↦
                    notify fl cfg unmarshal loaded metering_session
                      (session_over (session_data fl sess x ts))
                      (record_session fl cfg (session_data fl sess x ts) s)
              ]
            ])
              ≡ (none, entries s.log ++ booked cfg.journaling o ts st)
        go none st e =
            ap (λ x. (x, entries s.log)) e ∙ ap (λ l. (none, l)) (sym (append-nil (entries s.log)))
        go (some sess) none e = ap (λ l. (none, l)) (sym (append-nil (entries s.log)))
        go (some sess) (some x) e =
            notify-books loaded metering_session (session_over (session_data fl sess x ts))
              (record_session fl cfg (session_data fl sess x ts) s)
            ∙ record_session-books (session_data fl sess x ts) s

    handle-books :
        (s : Service fl) (u : Update fl) (m : Moment fl)
        → books (handle fl cfg unmarshal s u m) ≡ keep cfg.journaling (books s) u (shown m)
    unfolding handle handle_status handle_output abort_session
    handle-books s (output_change true ts) m =
        notify-books m.loaded Settings.output output_on (start_session fl ts m.first s)
        ∙ start_session-books ts m.first s
    handle-books s (output_change false ts) m =
        notify-books (after_session fl m s.session) Settings.output output_off
          (finish_session fl cfg unmarshal m.loaded ts m.first s)
        ∙ finish_session-books m.loaded ts m.first s
    handle-books s (status_change true transport) m = go s.saw_disconnect
      where
        go :
            (b : Bool)
            → books (
                if b
                then notify fl cfg unmarshal m.loaded device_link
                    (link_restored transport)
                    (resume_session_on_connect fl m.now m.first m.second s)
                else resume_session_on_connect fl m.now m.first m.second s)
              ≡ (resumed s.session m.now m.first m.second, entries s.log)
        go true =
            notify-books m.loaded device_link (link_restored transport)
              (resume_session_on_connect fl m.now m.first m.second s)
            ∙ resume-books m.now m.first m.second s
        go false = resume-books m.now m.first m.second s
    handle-books s (status_change false transport) m =
        notify-books m.loaded device_link (link_lost transport)
          (abort_session fl (record s { saw_disconnect = true }))
    handle-books s (protection_trip p ts) m =
        notify-books m.loaded Settings.protection_trip (protection_text fl p m.first) s
    handle-books s (mode_change _ _) m = refl
    handle-books s (telemetry t) m = refl
    handle-books s (state_snapshot x) m = refl
    handle-books s (journal_event _ _) m = refl

    -- The sessions that the notifier opens and the entries that it makes are those of the bookkeeping on its own: they do not
    -- depend on whether a sender is configured, on the settings or on what loading them comes to.
    pub run-books :
        (us : List (Update fl × Moment fl)) (s : Service fl)
        → books (run fl cfg unmarshal s us) ≡ keep_all cfg.journaling (books s) (all_shown us)
    unfolding run
    run-books [] s = refl
    run-books ((u, m) ∷ us) s =
        run-books us (handle fl cfg unmarshal s u m)
        ∙ ap (λ b. keep_all cfg.journaling b (all_shown us)) (handle-books s u m)
