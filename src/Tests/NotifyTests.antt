-- ===== src/Tests/NotifyTests.antt =====
-- Two notifications of a kind within one window of five units, and the timer.
use dps150_web.Base.{ℕ, ◌+◌, ◌≤◌, ◌≡◌, refl, [], ◌++◌, none, some, ◌⊎◌, inl, inr, arith}
use dps150_web.Notify.Throttle.{KindState, fresh_kind, Sent, throttle_kind, flush_state}
use dps150_web.Notify.Throttle.Accounting.{
  total, IsScheduled, Trace, here, next, notified, fired, Trace-total, Trace-cooldown,
}

abbrev first : KindState × Sent
first = throttle_kind 5 fresh_kind 10 "trip"

abbrev second : KindState × Sent
second = throttle_kind 5 first.0 12 "trip again"

abbrev flushed : KindState × Sent
flushed = flush_state second.0 16

abbrev held : Trace 5 second.0 (([] ++ first.1) ++ second.1) 2
unfolding throttle_kind
held =
    next (next here (notified {now = 10} "trip" (inl refl)))
      (notified {now = 12} "trip again" (inr (10, refl, omega arith)))

Trace-total_example :
    (total (([] ++ first.1) ++ second.1) + second.0.pending ≡ 2) × IsScheduled 5 second.0
Trace-total_example = Trace-total 5 held

Trace-cooldown_example :
    (flushed.1 ≡ [])
    ⊎ (second.0.last_sent ≡ none)
    ⊎ ((s : ℕ) × (second.0.last_sent ≡ some s) × (s + 5 ≤ 16))
unfolding throttle_kind
Trace-cooldown_example = Trace-cooldown 5 held (fired {now = 16} 15 refl (omega arith))
