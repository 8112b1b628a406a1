-- ===== src/Journal/Entries.antt =====
-- The entries of journal.go against the updates of the hub.
use dps150_web.Base.{
  ℕ, ◌≡◌, refl, sym, ap, ◌∙◌, Bool, true, false, List, [], ◌∷◌, ◌++◌, append_assoc, append-nil,
  Option, none, some, Option-cases, inl, inr,
}
use Prim.Native.String.{String}
use dps150_web.Float.{Floats}
use dps150_web.Protocol.Register.{protection_string}
use dps150_web.Hub.State.{
  State, Update, state_snapshot, telemetry, status_change, protection_trip, mode_change,
  output_change, journal_event,
}
use dps150_web.Hub.Apply.{Hub, new_hub}
use dps150_web.Hub.Apply.Invariant.{Trace, Trace-IsSound, Alternates, links}
use dps150_web.Journal.{
  Outcome, Measured, Entry, trip_entry, device_connected, device_disconnected, output_on,
  output_off, measured_state, measured_tick, watch, entry_of, World, handle, consume, begin,
}

module _ (fl : Floats) where
  -- The link transitions that some entries record.
  abbrev pub link_entries : List (Entry fl) → List Bool
  link_entries [] = []
  link_entries (device_connected ∷ es) = true ∷ link_entries es
  link_entries (device_disconnected ∷ es) = false ∷ link_entries es
  link_entries (trip_entry _ _ ∷ es) = link_entries es
  link_entries (output_on ∷ es) = link_entries es
  link_entries (output_off ∷ es) = link_entries es

  link_entries-append :
      (xs ys : List (Entry fl)) → link_entries (xs ++ ys) ≡ link_entries xs ++ link_entries ys
  link_entries-append [] ys = refl
  link_entries-append (device_connected ∷ xs) ys = ap (λ l. true ∷ l) (link_entries-append xs ys)
  link_entries-append (device_disconnected ∷ xs) ys =
      ap (λ l. false ∷ l) (link_entries-append xs ys)
  link_entries-append (trip_entry _ _ ∷ xs) ys = link_entries-append xs ys
  link_entries-append (output_on ∷ xs) ys = link_entries-append xs ys
  link_entries-append (output_off ∷ xs) ys = link_entries-append xs ys

  abbrev pub updates : List (Update fl × ℕ × Outcome) → List (Update fl)
  updates [] = []
  updates ((u, now, o) ∷ us) = u ∷ updates us

  -- The measurements among some updates, in order.
  abbrev pub readings : List (Update fl) → List (Measured fl)
  readings [] = []
  readings (telemetry t ∷ us) = measured_tick fl t ∷ readings us
  readings (state_snapshot s ∷ us) = elim s.state [
    | none ↦ readings us
    | some st ↦ measured_state fl st ∷ readings us
  ]
  readings (status_change _ _ ∷ us) = readings us
  readings (protection_trip _ _ ∷ us) = readings us
  readings (mode_change _ _ ∷ us) = readings us
  readings (output_change _ _ ∷ us) = readings us
  readings (journal_event _ _ ∷ us) = readings us

  abbrev pub latest : Measured fl → List (Measured fl) → Measured fl
  latest m [] = m
  latest m (x ∷ xs) = latest x xs

  module _ (to_lower : String → String) (print : ℕ → String) where
    -- One update, seen by its link transitions.
    handle-links :
        (w : World fl to_lower print) (u : Update fl) (now : ℕ) (o : Outcome)
        → link_entries (handle fl to_lower print w u now o).entries
          ≡ link_entries w.entries ++ links fl (u ∷ [])
    unfolding handle entry_of
    handle-links w (telemetry t) now o = sym (append-nil (link_entries w.entries))
    handle-links w (state_snapshot s) now o = sym (append-nil (link_entries w.entries))
    handle-links w (status_change true _) now o =
        link_entries-append w.entries (device_connected ∷ [])
    handle-links w (status_change false _) now o =
        link_entries-append w.entries (device_disconnected ∷ [])
    handle-links w (protection_trip p _) now o = link_entries-append w.entries _
    handle-links w (mode_change _ _) now o = sym (append-nil (link_entries w.entries))
    handle-links w (output_change true _) now o = link_entries-append w.entries (output_on ∷ [])
    handle-links w (output_change false _) now o = link_entries-append w.entries (output_off ∷ [])
    handle-links w (journal_event _ _) now o = sym (append-nil (link_entries w.entries))

    links-cons :
        (u : Update fl) (us : List (Update fl))
        → links fl (u ∷ us) ≡ links fl (u ∷ []) ++ links fl us
    links-cons (status_change _ _) us = refl
    links-cons (telemetry t) us = refl
    links-cons (state_snapshot _) us = refl
    links-cons (protection_trip _ _) us = refl
    links-cons (mode_change _ _) us = refl
    links-cons (output_change _ _) us = refl
    links-cons (journal_event _ _) us = refl

    consume-links :
        (us : List (Update fl × ℕ × Outcome)) (w : World fl to_lower print)
        → link_entries (consume fl to_lower print w us).entries
          ≡ link_entries w.entries ++ links fl (updates us)
    unfolding consume
    consume-links [] w = sym (append-nil (link_entries w.entries))
    consume-links ((u, now, o) ∷ us) w =
        consume-links us (handle fl to_lower print w u now o)
        ∙ ap (λ l. l ++ links fl (updates us)) (handle-links w u now o)
        ∙ append_assoc (link_entries w.entries) (links fl (u ∷ [])) (links fl (updates us))
        ∙ ap (λ l. link_entries w.entries ++ l) (sym (links-cons u (updates us)))

    -- A journal that sees every update of a hub, from a new hub on, hands to AppendEvent entries for
    -- the connection and its loss that alternate, a connect first, and that end with the state of the hub's link, whatever
    -- the hub meets and whatever the store has answered to the entries before: a refusal makes it neither repeat nor leave out a later one.
    -- An entry that the store refuses is handed over once and is not in the database.
    pub consume-Alternates :
        (transport : String) (h : Hub fl) (us : List (Update fl × ℕ × Outcome))
        → Trace fl (new_hub fl transport) h (updates us)
        → Alternates fl false
            (link_entries (consume fl to_lower print (begin fl to_lower print none) us).entries)
            h.connected
    unfolding begin
    consume-Alternates transport h us t =
        rw (consume-links us (begin fl to_lower print none)) (Trace-IsSound fl transport t).1

    latest-snapshot :
        (st : Option (State fl)) (m : Measured fl) (rs : List (Measured fl))
        → latest (elim st as (λ _. Measured fl) [ none ↦ m | some x ↦ measured_state fl x ]) rs
          ≡ latest m (elim st as (λ _. List (Measured fl)) [
            | none ↦ rs
            | some x ↦ measured_state fl x ∷ rs
          ])
    latest-snapshot none m rs = refl
    latest-snapshot (some x) m rs = refl

    -- What the loop remembers is the latest measurement that it has seen.
    consume-last :
        (us : List (Update fl × ℕ × Outcome)) (w : World fl to_lower print)
        → (consume fl to_lower print w us).last ≡ latest w.last (readings (updates us))
    unfolding consume handle entry_of watch
    consume-last [] w = refl
    consume-last ((telemetry t, now, o) ∷ us) w = consume-last us _
    consume-last ((state_snapshot s, now, o) ∷ us) w =
        consume-last us _ ∙ latest-snapshot s.state w.last (readings (updates us))
    consume-last ((status_change on _, now, o) ∷ us) w = consume-last us _
    consume-last ((protection_trip p _, now, o) ∷ us) w = consume-last us _
    consume-last ((mode_change _ _, now, o) ∷ us) w = consume-last us _
    consume-last ((output_change on _, now, o) ∷ us) w = consume-last us _
    consume-last ((journal_event _ _, now, o) ∷ us) w = consume-last us _

    consume-append :
        (us vs : List (Update fl × ℕ × Outcome)) (w : World fl to_lower print)
        → consume fl to_lower print w (us ++ vs)
          ≡ consume fl to_lower print (consume fl to_lower print w us) vs
    unfolding consume
    consume-append [] vs w = refl
    consume-append ((u, now, o) ∷ us) vs w =
        consume-append us vs (handle fl to_lower print w u now o)

    handle-grows :
        (w : World fl to_lower print) (u : Update fl) (now : ℕ) (o : Outcome)
        → (es : List (Entry fl)) × ((handle fl to_lower print w u now o).entries ≡ w.entries ++ es)
    unfolding handle
    handle-grows w u now o = elim (Option-cases (entry_of fl to_lower print w.last u)) [
      | inl e ↦ ([], rw (e, handle) (sym (append-nil w.entries)))
      | inr (x, e) ↦ (x ∷ [], rw (e, handle) refl)
    ]

    -- What is written stays written.
    consume-grows :
        (us : List (Update fl × ℕ × Outcome)) (w : World fl to_lower print)
        → (es : List (Entry fl)) × ((consume fl to_lower print w us).entries ≡ w.entries ++ es)
    unfolding consume
    consume-grows [] w = ([], sym (append-nil w.entries))
    consume-grows ((u, now, o) ∷ us) w =
        let (xs, e) = handle-grows w u now o in
        let (ys, f) = consume-grows us (handle fl to_lower print w u now o) in
        (xs ++ ys, f ∙ ap (λ l. l ++ ys) e ∙ append_assoc w.entries xs ys)

    -- The entry of a protection trip names the protection and carries the latest measurement among the updates before the
    -- trip (or that of the start, if there was none), and it stands between the entries of the updates before and after.
    pub consume-trip :
        (before after : List (Update fl × ℕ × Outcome)) (p ts now : ℕ) (o : Outcome)
        (w : World fl to_lower print)
        → (rest : List (Entry fl)) × ((consume fl to_lower print w
              (before ++ (protection_trip p ts, now, o) ∷ after)).entries
            ≡ (consume fl to_lower print w before).entries
              ++ trip_entry
                  (to_lower (protection_string print p))
                  (latest w.last (readings (updates before)))
                ∷ rest)
    unfolding handle entry_of consume
    consume-trip before after p ts now o w =
        let v = consume fl to_lower print w before in
        let tripped = handle fl to_lower print v (protection_trip p ts) now o in
        let (rest, e) = consume-grows after tripped in
        (
          rest,
          ap (λ x. x.entries) (consume-append before ((protection_trip p ts, now, o) ∷ after) w)
              ∙ e
              ∙ append_assoc v.entries
                  (trip_entry (to_lower (protection_string print p)) v.last ∷ []) rest
              ∙ ap (λ m. v.entries ++ trip_entry (to_lower (protection_string print p)) m ∷ rest)
                  (consume-last before w),
        )
