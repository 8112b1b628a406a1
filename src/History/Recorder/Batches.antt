-- ===== src/History/Recorder/Batches.antt =====
-- The keys of the rows that recorder.go hands to the database, and the size of its buffer.
use dps150_web.Base.{
  ℕ, suc, ◌+◌, ◌/◌, ◌^◌, ◌≤◌, ◌≡◌, refl, ap, Bool, true, false, List, [], ◌∷◌, ◌++◌, leb, arith,
  Bool-cases, inl, inr, All, All-append, length, length-append, drop,
}
use mathlib.Core.Path.{subst}
use Prim.Native.String.{String}
use dps150_web.Float.{Floats}
use dps150_web.Hub.State.{
  state_snapshot, telemetry, status_change, protection_trip, mode_change, output_change,
  journal_event,
}
use dps150_web.History.Recorder.{
  Sample, Recorder, World, fresh, max_buffered, drop_samples, ends_at, replace_last, append, flush,
  sample_from, Event, updated, flushed, handle, run,
}

module _ (fl : Floats) where
  -- The keys of some rows rise strictly, from `lo` on.
  abbrev pub Rising : ℕ → List (Sample fl) → Type 0
  Rising lo [] = Unit
  Rising lo (x ∷ xs) = (lo ≤ x.ts) × Rising (suc x.ts) xs

  -- The least key that may follow.
  abbrev pub after : ℕ → List (Sample fl) → ℕ
  after lo [] = lo
  after lo (x ∷ xs) = after (suc x.ts) xs

  Rising-weaken : (lo hi : ℕ) (xs : List (Sample fl)) → lo ≤ hi → Rising hi xs → Rising lo xs
  Rising-weaken lo hi [] h r = tt
  Rising-weaken lo hi (x ∷ xs) h (a, r) = (omega arith, r)

  Rising-append :
      (lo : ℕ) (xs : List (Sample fl)) (s : Sample fl)
      → Rising lo xs
      → after lo xs ≤ s.ts
      → Rising lo (xs ++ s ∷ [])
  Rising-append lo [] s r h = (h, tt)
  Rising-append lo (x ∷ xs) s (a, r) h = (a, Rising-append (suc x.ts) xs s r h)

  after-append :
      (lo : ℕ) (xs : List (Sample fl)) (s : Sample fl) → after lo (xs ++ s ∷ []) ≡ suc s.ts
  after-append lo [] s = refl
  after-append lo (x ∷ xs) s = after-append (suc x.ts) xs s

  after_mono : (lo hi : ℕ) (xs : List (Sample fl)) → lo ≤ hi → after lo xs ≤ after hi xs
  after_mono lo hi [] h = h
  after_mono lo hi (x ∷ xs) h = omega arith

  -- A new row that takes the place of one with its key leaves the keys.
  replace_last-Rising :
      (lo : ℕ) (xs : List (Sample fl)) (s : Sample fl)
      → ends_at fl xs s.ts ≡ true
      → Rising lo xs
      → Rising lo (replace_last fl xs s) × (after lo (replace_last fl xs s) ≡ suc s.ts)
  replace_last-Rising lo [] s e r = absurd (cc)
  replace_last-Rising lo (x ∷ []) s e (a, r) = ((ground arith, tt), refl)
  replace_last-Rising lo (x ∷ y ∷ ys) s e (a, r) =
      let (p, q) = replace_last-Rising (suc x.ts) (y ∷ ys) s e r in ((a, p), q)

  pub length-replace_last :
      (xs : List (Sample fl)) (s : Sample fl) → length (replace_last fl xs s) ≡ length xs
  length-replace_last [] s = refl
  length-replace_last (x ∷ []) s = refl
  length-replace_last (x ∷ y ∷ ys) s = ap suc (length-replace_last (y ∷ ys) s)

  -- If the last row has another key, the next key after the buffer's is not beyond a later tick's.
  ends_at-after :
      (lo : ℕ) (xs : List (Sample fl)) (ts : ℕ)
      → ends_at fl xs ts ≡ false
      → lo ≤ ts
      → after lo xs ≤ suc ts
      → after lo xs ≤ ts
  ends_at-after lo [] ts e l h = l
  ends_at-after lo (x ∷ []) ts e l h = ground arith
  ends_at-after lo (x ∷ y ∷ ys) ts e l h = ends_at-after lo (y ∷ ys) ts e l h

  -- The buffer after ticks of which the last has the key `last`.
  abbrev pub Kept : ℕ → List (Sample fl) → Type 0
  Kept last xs = Rising 0 xs × (after 0 xs ≤ suc last) × (length xs ≤ max_buffered)

  full-Kept :
      (xs : List (Sample fl)) (s : Sample fl)
      → Rising 0 xs
      → after 0 xs ≤ s.ts
      → length xs ≤ max_buffered
      → Kept s.ts (drop 1 xs ++ s ∷ [])
  full-Kept [] s r h n = ((omega arith, tt), omega arith, omega arith)
  full-Kept (x ∷ xs) s (a, r) h n = (
    Rising-append 0 xs s (Rising-weaken 0 (suc x.ts) xs (omega arith) r)
        (omega (arith, after_mono 0 (suc x.ts) xs (omega arith))),
    omega (arith, after-append 0 xs s),
    omega (arith, length-append xs (s ∷ [])),
  )

  drop_samples-buf : (r : Recorder fl) (n now : ℕ) → (drop_samples fl r n now).buf ≡ r.buf
  unfolding drop_samples
  drop_samples-buf r n now = ground arith

  append-Kept :
      (last : ℕ) (r : Recorder fl) (s : Sample fl) (now : ℕ)
      → last ≤ s.ts
      → Kept last r.buf
      → Kept s.ts (append fl r s now).buf
  unfolding append
  append-Kept last r s now h (rise, a, n) = elim (Bool-cases (ends_at fl r.buf s.ts)) [
    | inl e ↦
        let (rise', a') = replace_last-Rising 0 r.buf s e rise in
        rw (e, append) (rise', omega (arith, a'), omega (arith, length-replace_last r.buf s))
    | inr e ↦
        let fits = ends_at-after 0 r.buf s.ts e (omega arith) (omega arith) in
        elim (Bool-cases (leb max_buffered (length r.buf))) [
          | inl f ↦ rw (e, f, append) (full-Kept r.buf s rise fits n)
          | inr f ↦
              rw (e, f, append)
                (
                  Rising-append 0 r.buf s rise fits,
                  omega (arith, after-append 0 r.buf s),
                  ground (arith, length-append r.buf (s ∷ [])),
                )
        ]
  ]

  -- A batch fits the buffer, and no two of its rows have one key.
  abbrev pub IsBatch : List (Sample fl) × Bool → Type 0
  IsBatch (rows, ok) = Rising 0 rows × (length rows ≤ max_buffered)

  flush-Kept :
      (last : ℕ) (w : World fl) (ok : Bool) (now : ℕ)
      → Kept last w.recorder.buf
      → All IsBatch w.batches
      → Kept last (flush fl w ok now).recorder.buf × All IsBatch (flush fl w ok now).batches
  unfolding flush
  flush-Kept last w ok now k b = go w.recorder.buf refl
    where
      go :
          (xs : List (Sample fl))
          → w.recorder.buf ≡ xs
          → Kept last (flush fl w ok now).recorder.buf × All IsBatch (flush fl w ok now).batches
      go [] e = rw (e, flush) (k, b)
      go (x ∷ xs) e =
          let fits = subst (λ b. Rising 0 b × (length b ≤ max_buffered)) e (k.0, k.2) in
          rw (e, flush)
            (
              (tt, omega arith, omega arith),
              All-append IsBatch w.batches ((x ∷ xs, ok) ∷ []) b (fits, tt),
            )

  module _ (to_lower : String → String) (print : ℕ → String) where
    -- The keys of the ticks, each `gap` after the one before at least, from `last` on.
    abbrev pub Ordered : ℕ → ℕ → List (Event fl to_lower print) → Type 0
    Ordered gap last [] = Unit
    Ordered gap last (updated (telemetry t) now ∷ es) =
        (last + gap ≤ t.ts / 10 ^ 6) × Ordered gap (t.ts / 10 ^ 6) es
    Ordered gap last (updated (state_snapshot _) now ∷ es) = Ordered gap last es
    Ordered gap last (updated (status_change _ _) now ∷ es) = Ordered gap last es
    Ordered gap last (updated (protection_trip _ _) now ∷ es) = Ordered gap last es
    Ordered gap last (updated (mode_change _ _) now ∷ es) = Ordered gap last es
    Ordered gap last (updated (output_change _ _) now ∷ es) = Ordered gap last es
    Ordered gap last (updated (journal_event _ _) now ∷ es) = Ordered gap last es
    Ordered gap last (flushed ok now ∷ es) = Ordered gap last es

    run-Kept :
        (last : ℕ) (es : List (Event fl to_lower print)) (ok : Bool) (now : ℕ) (w : World fl)
        → Ordered 0 last es
        → Kept last w.recorder.buf
        → All IsBatch w.batches
        → All IsBatch (run fl to_lower print es ok now w).batches
    unfolding run handle sample_from
    run-Kept last [] ok now w o k b = (flush-Kept last w ok now k b).1
    run-Kept last (updated (telemetry t) at ∷ es) ok now w (h, o) k b =
        run-Kept (t.ts / 10 ^ 6) es ok now (handle fl to_lower print w (updated (telemetry t) at)) o
          (append-Kept last w.recorder (sample_from fl to_lower print t) at (omega arith) k) b
    run-Kept last (updated (state_snapshot _) at ∷ es) ok now w o k b =
        run-Kept last es ok now w o k b
    run-Kept last (updated (status_change _ _) at ∷ es) ok now w o k b =
        run-Kept last es ok now w o k b
    run-Kept last (updated (protection_trip _ _) at ∷ es) ok now w o k b =
        run-Kept last es ok now w o k b
    run-Kept last (updated (mode_change _ _) at ∷ es) ok now w o k b =
        run-Kept last es ok now w o k b
    run-Kept last (updated (output_change _ _) at ∷ es) ok now w o k b =
        run-Kept last es ok now w o k b
    run-Kept last (updated (journal_event _ _) at ∷ es) ok now w o k b =
        run-Kept last es ok now w o k b
    run-Kept last (flushed f at ∷ es) ok now w o k b =
        let (k', b') = flush-Kept last w f at k b in
        run-Kept last es ok now (flush fl w f at) o k' b'

    -- If the clock of the telemetry never goes back, then whatever the database does, every batch that the recorder hands to
    -- it has at most 600 rows, and no two rows of a batch have the same key.
    pub run-IsBatch :
        (es : List (Event fl to_lower print)) (ok : Bool) (now : ℕ)
        → Ordered 0 0 es
        → All IsBatch
            (run fl to_lower print es ok now (record { recorder = fresh fl; batches = [] })).batches
    run-IsBatch es ok now o =
        run-Kept 0 es ok now (record { recorder = fresh fl; batches = [] }) o
          (tt, omega arith, omega arith) tt
