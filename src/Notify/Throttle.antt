-- ===== src/Notify/Throttle.antt =====
-- backend/internal/notify/throttle.go: the cooldown of one kind of notification; each kind has such
-- a state of its own. Times are in nanoseconds. What is handed to `enqueue` stands beside the new
-- state, as the text with the number of notifications that it stands for; the wording of the suffix
-- is not kept. A timer is the time at which it is due.
pub mod Accounting
use dps150_web.Base.{
  ℕ, ◌+◌, ◌-◌, Bool, true, false, ◌&&◌, List, [], ◌∷◌, Option, none, some, leb, ◌==◌, if◌then◌else◌,
}
use Prim.Native.String.{String}

pub record KindState : Type 0 where
  pub last_sent : Option ℕ
  pub pending : ℕ
  pub last_text : String
  pub flush : Option ℕ

-- `none`: the zero time, and no entry in the map of kinds, whose first use makes this state.
abbrev pub fresh_kind : KindState
fresh_kind = record { last_sent = none; pending = 0; last_text = ""; flush = none }

pub record Throttle : Type 0 where
  pub stopped : Bool
  pub kind : Option KindState

abbrev pub Sent : Type 0
Sent = List (String × ℕ)

-- `now.Sub(st.lastSent) >= s.cooldown`; the zero time is longer ago than any cooldown.
abbrev pub window_closed : ℕ → KindState → ℕ → Bool
window_closed cooldown st now = elim st.last_sent [ none ↦ true | some s ↦ leb cooldown (now - s) ]

-- What is left of the window, and 0 if it is over.
abbrev pub time_left : ℕ → KindState → ℕ → ℕ
time_left cooldown st now = elim st.last_sent [ none ↦ 0 | some s ↦ cooldown - (now - s) ]

unfoldable pub kind_state : Throttle → KindState
kind_state t = elim t.kind [ none ↦ fresh_kind | some st ↦ st ]

unfoldable pub throttle_kind : ℕ → KindState → ℕ → String → KindState × Sent
throttle_kind cooldown st now text =
    if st.pending == 0 && window_closed cooldown st now
    then (record st { last_sent = some now }, (text, 1) ∷ [])
    else (
      record st {
        pending = st.pending + 1;
        last_text = text;
        flush = elim st.flush [
          | none ↦ some (now + time_left cooldown st now)
          | some due ↦ some due
        ];
      },
      [],
    )

unfoldable pub throttle_notify : ℕ → Throttle → ℕ → String → Throttle × Sent
throttle_notify cooldown t now text =
    let (st, sent) = throttle_kind cooldown (kind_state t) now text in
    if t.stopped then (t, []) else (record t { kind = some st }, sent)

unfoldable pub flush_state : KindState → ℕ → KindState × Sent
flush_state st now = if st.pending == 0 then (record st { flush = none }, []) else (
  record st { flush = none; pending = 0; last_sent = some now },
  (st.last_text, st.pending) ∷ [],
)

unfoldable pub flush_kind : Throttle → ℕ → Throttle × Sent
flush_kind t now = if t.stopped then (t, []) else elim t.kind [
  | none ↦ (t, [])
  | some st ↦ (let (st', sent) = flush_state st now in (record t { kind = some st' }, sent))
]

unfoldable pub stop_throttle : Throttle → Throttle
stop_throttle t = elim t.kind [
  | none ↦ record t { stopped = true }
  | some st ↦ record t { stopped = true; kind = some (record st { flush = none }) }
]
