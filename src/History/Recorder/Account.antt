-- ===== src/History/Recorder/Account.antt =====
-- Where the ticks that recorder.go receives have gone.
use dps150_web.Base.{
  ℕ, suc, ◌+◌, ◌/◌, ◌^◌, ◌≡◌, refl, sym, ap, Bool, true, false, List, [], ◌∷◌, ◌++◌, leb, arith,
  if◌then◌else◌, Bool-cases, inl, inr, length, length-append, length-drop, drop, Option, none, some,
  ◌==◌, ◌∙◌,
}
use Prim.Native.String.{String}
use dps150_web.Float.{Floats}
use dps150_web.Hub.State.{
  state_snapshot, telemetry, status_change, protection_trip, mode_change, output_change,
  journal_event,
}
use dps150_web.History.Recorder.{
  Sample, Recorder, World, fresh, max_buffered, drop_samples, ends_at, replace_last, append, flush,
  sample_from, Event, updated, flushed, handle, run,
}
use dps150_web.History.Recorder.Batches.{length-replace_last}

module _ (fl : Floats) where
  -- The rows of the batches that the database took.
  abbrev pub stored : List (List (Sample fl) × Bool) → ℕ
  stored [] = 0
  stored ((rows, ok) ∷ bs) = (if ok then length rows else 0) + stored bs

  stored-append :
      (xs : List (List (Sample fl) × Bool)) (rows : List (Sample fl)) (ok : Bool)
      → stored (xs ++ (rows, ok) ∷ []) ≡ stored xs + (if ok then length rows else 0)
  stored-append [] rows ok = omega arith
  stored-append ((r, k) ∷ bs) rows ok = omega (arith, stored-append bs rows ok)

  -- The ticks that are in the buffer, in the database, or counted as dropped.
  abbrev pub accounted : World fl → ℕ
  accounted w = length w.recorder.buf + stored w.batches + w.recorder.dropped

  -- The key of the last row.
  abbrev last_key : List (Sample fl) → Option ℕ
  last_key [] = none
  last_key (x ∷ []) = some x.ts
  last_key (x ∷ y ∷ ys) = last_key (y ∷ ys)

  abbrev is_key : Option ℕ → ℕ → Bool
  is_key none ts = false
  is_key (some k) ts = k == ts

  ends_at-last_key : (xs : List (Sample fl)) (ts : ℕ) → ends_at fl xs ts ≡ is_key (last_key xs) ts
  ends_at-last_key [] ts = refl
  ends_at-last_key (x ∷ []) ts = refl
  ends_at-last_key (x ∷ y ∷ ys) ts = ends_at-last_key (y ∷ ys) ts

  last_key-append : (xs : List (Sample fl)) (s : Sample fl) → last_key (xs ++ s ∷ []) ≡ some s.ts
  last_key-append [] s = refl
  last_key-append (x ∷ []) s = refl
  last_key-append (x ∷ y ∷ ys) s = last_key-append (y ∷ ys) s

  last_key-replace_last :
      (xs : List (Sample fl)) (s : Sample fl)
      → ends_at fl xs s.ts ≡ true
      → last_key (replace_last fl xs s) ≡ some s.ts
  last_key-replace_last [] s e = absurd (cc)
  last_key-replace_last (x ∷ []) s e = refl
  last_key-replace_last (x ∷ y ∷ []) s e = refl
  last_key-replace_last (x ∷ y ∷ z ∷ zs) s e = last_key-replace_last (y ∷ z ∷ zs) s e

  drop_samples-dropped :
      (r : Recorder fl) (n now : ℕ)
      → ((drop_samples fl r n now).buf ≡ r.buf)
        × ((drop_samples fl r n now).dropped ≡ r.dropped + n)
  unfolding drop_samples
  drop_samples-dropped r n now = ground arith

  append-accounted :
      (r : Recorder fl) (s : Sample fl) (now : ℕ)
      → (length (append fl r s now).buf
            + (append fl r s now).dropped
            + (if is_key (last_key r.buf) s.ts then 1 else 0)
          ≡ suc (length r.buf + r.dropped))
        × (last_key (append fl r s now).buf ≡ some s.ts)
  unfolding append
  append-accounted r s now = elim (Bool-cases (ends_at fl r.buf s.ts)) [
    | inl e ↦
        rw (e, sym (ends_at-last_key r.buf s.ts) ∙ e, append)
          (omega (arith, length-replace_last fl r.buf s), last_key-replace_last r.buf s e)
    | inr e ↦ elim (Bool-cases (leb max_buffered (length r.buf))) [
      | inl f ↦
          rw (e, f, sym (ends_at-last_key r.buf s.ts) ∙ e, append)
            (
              ground (
                arith,
                length-append (drop 1 r.buf) (s ∷ []),
                length-drop 1 r.buf,
                (drop_samples-dropped r 1 now).1,
              ),
              last_key-append (drop 1 r.buf) s,
            )
      | inr f ↦
          rw (e, f, sym (ends_at-last_key r.buf s.ts) ∙ e, append)
            (omega (arith, length-append r.buf (s ∷ [])), last_key-append r.buf s)
    ]
  ]

  flush-accounted :
      (w : World fl) (ok : Bool) (now : ℕ)
      → (accounted (flush fl w ok now) ≡ accounted w) × ((flush fl w ok now).recorder.buf ≡ [])
  unfolding flush
  flush-accounted w ok now = go w.recorder.buf refl
    where
      go :
          (xs : List (Sample fl))
          → w.recorder.buf ≡ xs
          → (accounted (flush fl w ok now) ≡ accounted w) × ((flush fl w ok now).recorder.buf ≡ [])
      go [] e = rw (e, flush) (omega (arith, ap length e), e)
      go (x ∷ xs) e = elim (Bool-cases ok) [
        | inl y ↦
            rw (e, y, flush)
              (omega (arith, stored-append w.batches (x ∷ xs) true, ap length e), refl)
        | inr y ↦
            rw (e, y, flush)
              (
                omega (
                  arith,
                  stored-append w.batches (x ∷ xs) false,
                  ap length e,
                  (drop_samples-dropped w.recorder (length (x ∷ xs)) now).1,
                ),
                refl,
              )
      ]

  module _ (to_lower : String → String) (print : ℕ → String) where
    abbrev pub ticks : List (Event fl to_lower print) → ℕ
    ticks [] = 0
    ticks (updated (telemetry t) now ∷ es) = suc (ticks es)
    ticks (updated (state_snapshot _) now ∷ es) = ticks es
    ticks (updated (status_change _ _) now ∷ es) = ticks es
    ticks (updated (protection_trip _ _) now ∷ es) = ticks es
    ticks (updated (mode_change _ _) now ∷ es) = ticks es
    ticks (updated (output_change _ _) now ∷ es) = ticks es
    ticks (updated (journal_event _ _) now ∷ es) = ticks es
    ticks (flushed ok now ∷ es) = ticks es

    -- The ticks that come in the same millisecond as the tick before them, without a flush between the two: the row of the
    -- earlier one is replaced. `key` is the millisecond of the last tick since the last flush.
    abbrev pub replaced : Option ℕ → List (Event fl to_lower print) → ℕ
    replaced key [] = 0
    replaced key (updated (telemetry t) now ∷ es) =
        (if is_key key (t.ts / 10 ^ 6) then 1 else 0) + replaced (some (t.ts / 10 ^ 6)) es
    replaced key (updated (state_snapshot _) now ∷ es) = replaced key es
    replaced key (updated (status_change _ _) now ∷ es) = replaced key es
    replaced key (updated (protection_trip _ _) now ∷ es) = replaced key es
    replaced key (updated (mode_change _ _) now ∷ es) = replaced key es
    replaced key (updated (output_change _ _) now ∷ es) = replaced key es
    replaced key (updated (journal_event _ _) now ∷ es) = replaced key es
    replaced key (flushed ok now ∷ es) = replaced none es

    run-accounted :
        (es : List (Event fl to_lower print)) (ok : Bool) (now : ℕ) (w : World fl)
        → let end = run fl to_lower print es ok now w in
          (accounted end + replaced (last_key w.recorder.buf) es ≡ ticks es + accounted w)
          × (end.recorder.buf ≡ [])
    unfolding run handle sample_from
    run-accounted [] ok now w = let (a, b) = flush-accounted w ok now in (omega arith, b)
    run-accounted (updated (telemetry t) at ∷ es) ok now w =
        let s = sample_from fl to_lower print t in
        let (more, key) = append-accounted w.recorder s at in
        let (a, b) =
          run-accounted es ok now (handle fl to_lower print w (updated (telemetry t) at)) in
        let same = ap (λ o. replaced o es) key in (omega (arith, more, a, same), b)
    run-accounted (updated (state_snapshot _) at ∷ es) ok now w = run-accounted es ok now w
    run-accounted (updated (status_change _ _) at ∷ es) ok now w = run-accounted es ok now w
    run-accounted (updated (protection_trip _ _) at ∷ es) ok now w = run-accounted es ok now w
    run-accounted (updated (mode_change _ _) at ∷ es) ok now w = run-accounted es ok now w
    run-accounted (updated (output_change _ _) at ∷ es) ok now w = run-accounted es ok now w
    run-accounted (updated (journal_event _ _) at ∷ es) ok now w = run-accounted es ok now w
    run-accounted (flushed f at ∷ es) ok now w =
        let (same, empty) = flush-accounted w f at in
        let (a, b) = run-accounted es ok now (flush fl w f at) in
        let reset = ap (λ l. replaced (last_key l) es) empty in (omega (arith, same, a, reset), b)

    -- Every tick that the recorder receives is in a batch that the database took, or is counted as dropped, or had its row replaced by that of the next tick,
    -- which came in the same millisecond and before a flush: none is lost in another way or counted twice,
    -- whatever the database and the updates between the ticks do.
    pub run_accounts :
        (es : List (Event fl to_lower print)) (ok : Bool) (now : ℕ)
        → let end =
            run fl to_lower print es ok now (record { recorder = fresh fl; batches = [] }) in
          stored end.batches + end.recorder.dropped + replaced none es ≡ ticks es
    run_accounts es ok now =
        let (a, b) = run-accounted es ok now (record { recorder = fresh fl; batches = [] }) in
        let none_left = ap length b in omega (arith, a, none_left)
