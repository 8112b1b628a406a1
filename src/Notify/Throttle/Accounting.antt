-- ===== src/Notify/Throttle/Accounting.antt =====
-- The notifications that throttle.go is given, against those that it sends or holds back.
use dps150_web.Base.{
  ℕ, ◌+◌, ◌-◌, ◌≤◌, ◌<◌, ◌≡◌, refl, ap, true, false, ◌&&◌, [], ◌∷◌, ◌++◌, none, some, ◌==◌, arith,
  Bool-cases, Option-cases, inl, inr, ◌⊎◌,
}
use Prim.Native.String.{String}
use dps150_web.Notify.Throttle.{
  KindState, fresh_kind, Sent, window_closed, time_left, throttle_kind, flush_state,
}

-- The notifications that messages stand for.
abbrev pub total : Sent → ℕ
total [] = 0
total ((text, n) ∷ ms) = n + total ms

-- Nothing is held back and no timer runs, or something is held back and a timer runs, which is not
-- due before the window of the last message ends.
abbrev pub IsScheduled : ℕ → KindState → Type 0
IsScheduled cooldown st =
    ((st.pending ≡ 0) × (st.flush ≡ none))
    ⊎ ((1 ≤ st.pending)
        × (due : ℕ) × (st.flush ≡ some due)
        × ((st.last_sent ≡ none) ⊎ ((s : ℕ) × (st.last_sent ≡ some s) × (s + cooldown ≤ due))))

-- The time does not lie before the last message.
abbrev pub IsAfter : KindState → ℕ → Type 0
IsAfter st now = (st.last_sent ≡ none) ⊎ ((s : ℕ) × (st.last_sent ≡ some s) × (s ≤ now))

throttle_kind-total :
    (cooldown : ℕ) (st : KindState) (now : ℕ) (text : String)
    → let (st', sent) = throttle_kind cooldown st now text in
      total sent + st'.pending ≡ st.pending + 1
unfolding throttle_kind
throttle_kind-total cooldown st now text =
    elim (Bool-cases (st.pending == 0 && window_closed cooldown st now)) [
      | inl e ↦ rw e (ground arith)
      | inr e ↦ rw e (omega arith)
    ]

flush_state-total :
    (st : KindState) (now : ℕ)
    → let (st', sent) = flush_state st now in total sent + st'.pending ≡ st.pending
unfolding flush_state
flush_state-total st now = ground arith

held_window :
    (cooldown : ℕ) (st : KindState) (now : ℕ)
    → st.pending ≡ 0
    → (st.pending == 0 && window_closed cooldown st now) ≡ false
    → (x : ℕ) × (st.last_sent ≡ some x) × (now - x < cooldown)
held_window cooldown st now p holds = elim (Option-cases st.last_sent) [
  | inl e ↦ absurd (ground arith)
  | inr (x, e) ↦ (x, e, ground arith)
]

throttle_kind-IsScheduled :
    (cooldown : ℕ) (st : KindState) (now : ℕ) (text : String)
    → IsScheduled cooldown st
    → IsAfter st now
    → IsScheduled cooldown (throttle_kind cooldown st now text).0
unfolding throttle_kind
throttle_kind-IsScheduled cooldown st now text (inl (p, f)) a =
    elim (Bool-cases (st.pending == 0 && window_closed cooldown st now)) [
      | inl sends ↦ rw (sends, throttle_kind) (inl (p, f))
      | inr holds ↦
          let (x, e, closed) = held_window cooldown st now p holds in
          let before : x ≤ now = ground arith in
          let left : time_left cooldown st now ≡ cooldown - (now - x) =
            ap (λ q. elim q [ none ↦ 0 | some s ↦ cooldown - (now - s) ]) e in
          rw (holds, throttle_kind)
            (inr (
              omega arith,
              now + time_left cooldown st now,
              ap
                  (λ q. elim q [
                    | none ↦ some (now + time_left cooldown st now)
                    | some due ↦ some due
                  ])
                  f,
              inr (x, e, omega (arith, left, before, closed)),
            ))
    ]
throttle_kind-IsScheduled cooldown st now text (inr (p, due, f, late)) a =
    let held : (st.pending == 0) ≡ false = ground arith in
    rw (held, throttle_kind) (inr (omega arith, due, rw f refl, late))

flush_state-IsScheduled :
    (cooldown : ℕ) (st : KindState) (now : ℕ) → IsScheduled cooldown (flush_state st now).0
unfolding flush_state
flush_state-IsScheduled cooldown st now = ground arith

-- One step of a kind while the service runs, at the time `now`: a notification, or its timer that is
-- due. The last number counts the notifications.
pub data Step (cooldown : ℕ) : KindState → ℕ → KindState → Sent → ℕ → Type 0 where
  notified :
      {st : KindState} {now : ℕ} (text : String)
      → IsAfter st now
      → Step cooldown st now
          (throttle_kind cooldown st now text).0
          (throttle_kind cooldown st now text).1
          1
  fired :
      {st : KindState} {now : ℕ} (due : ℕ)
      → st.flush ≡ some due
      → due ≤ now
      → Step cooldown st now (flush_state st now).0 (flush_state st now).1 0

pub data Trace (cooldown : ℕ) : KindState → Sent → ℕ → Type 0 where
  here : Trace cooldown fresh_kind [] 0
  next :
      {st : KindState} {now : ℕ} {st' : KindState} {ms more : Sent} {n k : ℕ}
      → Trace cooldown st ms n
      → Step cooldown st now st' more k
      → Trace cooldown st' (ms ++ more) (n + k)

total-append : (ms more : Sent) → total (ms ++ more) ≡ total ms + total more
total-append [] more = omega arith
total-append ((text, n) ∷ ms) more = omega (arith, total-append ms more)

Step-total :
    (cooldown : ℕ) {st : KindState} {now : ℕ} {st' : KindState} {more : Sent} {k : ℕ}
    → Step cooldown st now st' more k
    → total more + st'.pending ≡ st.pending + k
Step-total cooldown (notified {st = st} {now = now} text a) =
    throttle_kind-total cooldown st now text
Step-total cooldown (fired {st = st} {now = now} due f l) = omega (arith, flush_state-total st now)

Step-IsScheduled :
    (cooldown : ℕ) {st : KindState} {now : ℕ} {st' : KindState} {more : Sent} {k : ℕ}
    → Step cooldown st now st' more k
    → IsScheduled cooldown st
    → IsScheduled cooldown st'
Step-IsScheduled cooldown (notified {st = st} {now = now} text a) s =
    throttle_kind-IsScheduled cooldown st now text s a
Step-IsScheduled cooldown (fired {st = st} {now = now} due f l) s =
    flush_state-IsScheduled cooldown st now

-- While the service runs, whatever notifications of a kind come and whenever its timers fire: each
-- notification is counted in a message or held back, and what is held back has a timer, which is not
-- due before the cooldown after the last message is over.
pub Trace-total :
    (cooldown : ℕ) {st : KindState} {ms : Sent} {n : ℕ}
    → Trace cooldown st ms n
    → (total ms + st.pending ≡ n) × IsScheduled cooldown st
Trace-total cooldown here = (refl, inl (refl, refl))
Trace-total cooldown (next {st = st} {ms = ms} {more = more} t step) =
    let (sum, s) = Trace-total cooldown t in
    (
      omega (arith, sum, total-append ms more, Step-total cooldown step),
      Step-IsScheduled cooldown step s,
    )

sending :
    (cooldown : ℕ) (st : KindState) (now : ℕ) (text : String)
    → ((throttle_kind cooldown st now text).1 ≡ []) ⊎ (window_closed cooldown st now ≡ true)
unfolding throttle_kind
sending cooldown st now text = ground arith

-- Two messages of a kind are never closer than the cooldown: a step of a running service that sends
-- comes at the cooldown after the last message at the earliest.
pub Trace-cooldown :
    (cooldown : ℕ) {st : KindState} {now : ℕ} {st' : KindState} {ms more : Sent} {n k : ℕ}
    → Trace cooldown st ms n
    → Step cooldown st now st' more k
    → (more ≡ [])
      ⊎ (st.last_sent ≡ none)
      ⊎ ((s : ℕ) × (st.last_sent ≡ some s) × (s + cooldown ≤ now))
Trace-cooldown cooldown t (notified {st = st} {now = now} text a) =
    elim (sending cooldown st now text) [
      | inl quiet ↦ inl quiet
      | inr closed ↦ elim (Option-cases st.last_sent) [
        | inl e ↦ inr (inl e)
        | inr (x, e) ↦
            let before : x ≤ now = ground arith in
            let over : cooldown ≤ now - x = ground arith in
            inr (inr (x, e, omega (arith, before, over)))
      ]
    ]
Trace-cooldown cooldown t (fired {st = st} {now = now} due f l) = elim (Trace-total cooldown t).1 [
  | inl (p, idle) ↦ absurd (ground arith)
  | inr (some_held, set_for, f', late) ↦
      let same : set_for ≡ due = ground arith in
      elim late [
        | inl e ↦ inr (inl e)
        | inr (x, e, no_sooner) ↦ inr (inr (x, e, omega (arith, same, no_sooner, l)))
      ]
]
