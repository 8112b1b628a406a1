-- ===== src/Sequence/Manager/Ownership.antt =====
-- The slot of manager.go and the interlock that other engines share.
use dps150_web.Base.{
  ℕ, ◌≡◌, refl, sym, ap, ◌∙◌, true, false, Option, none, some, arith, Bool-cases, Option-cases, ◌⊎◌,
  inl, inr,
}
use Prim.Native.String.{String}
use text.Mathlib.Text as Text
use dps150_web.Float.{Floats}
use dps150_web.Hub.Command.{CommandError}
use dps150_web.Hub.Safety.{Interlock, acquire, release, free}
use dps150_web.Sequence.Program.{Program, validate}
use dps150_web.Sequence.Manager.{
  interlock_owner, Manager, release_interlock, claim, energize, start, finish_slot,
}

abbrev pub owned : Interlock
owned = record { owner = interlock_owner }

-- No run is active, or the interlock is the sequence engine's.
abbrev pub IsOwned : Manager → Type 0
IsOwned m = (m.active ≡ none) ⊎ (m.interlock ≡ some owned)

claim-cases :
    (m : Manager) (i : Interlock)
    → m.interlock ≡ some i
    → (claim m ≡ none)
      ⊎ ((Text.◌==◌ i.owner "" ≡ true) × (claim m ≡ some (record m { interlock = some owned })))
unfolding claim acquire
claim-cases m i e = elim (Bool-cases (Text.◌==◌ i.owner "")) [
  | inl q ↦ inr (q, rw (e, q, claim) refl)
  | inr q ↦ inl (rw (e, q, claim) refl)
]

-- A claim succeeds only where no run is active.
claim-idle :
    (m : Manager) (i : Interlock)
    → m.interlock ≡ some i
    → Text.◌==◌ i.owner "" ≡ true
    → IsOwned m
    → m.active ≡ none
claim-idle m i e q (inl idle) = idle
claim-idle m i e q (inr own) =
    let named : i.owner ≡ interlock_owner =
      ap (λ (o : Option Interlock). elim o [ none ↦ i.owner | some x ↦ x.owner ]) (sym e ∙ own) in
    let clash : Text.◌==◌ i.owner "" ≡ false = ap (λ s. Text.◌==◌ s "") named in absurd (cc)

energize-IsOwned :
    (m : Manager) (id : ℕ) (answer : Option CommandError)
    → m.active ≡ none
    → m.interlock ≡ some owned
    → IsOwned (energize m id answer).0
unfolding energize release_interlock
energize-IsOwned m id none idle own = rw (idle, energize) (inr own)
energize-IsOwned m id (some e) idle own = rw (idle, own, energize) (inl refl)

module _ (fl : Floats) (trim_space : String → String) where
  start-IsOwned :
      (m : Manager) (i : Interlock) (p : Program fl) (id : ℕ) (answer : Option CommandError)
      → m.interlock ≡ some i
      → IsOwned m
      → IsOwned (start fl trim_space m p id answer).0
  unfolding start
  start-IsOwned m i p id answer e own = elim (Option-cases (validate fl trim_space p)) [
    | inr (x, v) ↦ rw (v, start) own
    | inl v ↦ elim (claim-cases m i e) [
      | inl c ↦ rw (v, c, start) own
      | inr (q, c) ↦
          rw (v, c, start)
            (energize-IsOwned (record m { interlock = some owned }) id answer
              (claim-idle m i e q own) refl)
    ]
  ]

finish_slot-IsOwned : (m : Manager) (id : ℕ) → m.active ≡ some id → (finish_slot m id).active ≡ none
unfolding finish_slot release_interlock
finish_slot-IsOwned m id e = ground (arith)

start-wired :
    (fl : Floats) (trim_space : String → String) (m : Manager) (i : Interlock) (p : Program fl)
    (id : ℕ) (answer : Option CommandError)
    → m.interlock ≡ some i
    → (j : Interlock) × ((start fl trim_space m p id answer).0.interlock ≡ some j)
unfolding start energize release_interlock
start-wired fl trim_space m i p id answer e = elim (Option-cases (validate fl trim_space p)) [
  | inr (x, v) ↦ (i, rw (v, start) e)
  | inl v ↦ elim (claim-cases m i e) [
    | inl c ↦ (i, rw (v, c, start) e)
    | inr (q, c) ↦ elim (Option-cases m.active) [
      | inr (a, r) ↦ (release owned interlock_owner, rw (v, c, start, r, energize) refl)
      | inl r ↦ elim (Option-cases answer) [
        | inl s ↦ (owned, rw (v, c, start, r, energize, s) refl)
        | inr (x, s) ↦ (release owned interlock_owner, rw (v, c, start, r, energize, s) refl)
      ]
    ]
  ]
]

module _ (fl : Floats) (trim_space : String → String) where
  -- What can happen to a manager that is wired to an interlock: a start, the end of its active run,
  -- and another engine, under another name, that acquires or releases the interlock.
  pub data Step : Manager → Manager → Type 0 where
    started :
        {m : Manager} (p : Program fl) (id : ℕ) (answer : Option CommandError)
        → Step m (start fl trim_space m p id answer).0
    finished : {m : Manager} (id : ℕ) → m.active ≡ some id → Step m (finish_slot m id)
    foreign_acquired :
        {m : Manager} (i : Interlock) (o : String)
        → m.interlock ≡ some i
        → Text.◌==◌ interlock_owner o ≡ false
        → Step m (record m { interlock = some (acquire i o).0 })
    foreign_released :
        {m : Manager} (i : Interlock) (o : String)
        → m.interlock ≡ some i
        → Text.◌==◌ interlock_owner o ≡ false
        → Step m (record m { interlock = some (release i o) })

  pub data Reach (first : Manager) : Manager → Type 0 where
    here : Reach first first
    next : {m n : Manager} → Reach first m → Step m n → Reach first n

  -- The interlock is wired, and owned while a run is active.
  abbrev Kept : Manager → Type 0
  Kept m = ((i : Interlock) × (m.interlock ≡ some i)) × IsOwned m

  owner_of :
      (i : Interlock) (m : Manager) → m.interlock ≡ some i → m.interlock ≡ some owned → i ≡ owned
  owner_of i m e own = ap (λ (o : Option Interlock). elim o [ none ↦ i | some x ↦ x ]) (sym e ∙ own)

  Step-Kept : {m n : Manager} → Step m n → Kept m → Kept n
  unfolding acquire release finish_slot release_interlock
  Step-Kept (started {m = m} p id answer) ((i, e), own) = (
    start-wired fl trim_space m i p id answer e,
    start-IsOwned fl trim_space m i p id answer e own,
  )
  Step-Kept (finished {m = m} id a) ((i, e), own) =
      ((release i interlock_owner, ground (arith)), inl (finish_slot-IsOwned m id a))
  Step-Kept (foreign_acquired {m = m} i o e ne) (w, inl idle) = (((acquire i o).0, refl), inl idle)
  Step-Kept (foreign_acquired {m = m} i o e ne) (w, inr own) =
      (((acquire i o).0, refl), inr (ap (λ x. some (acquire x o).0) (owner_of i m e own)))
  Step-Kept (foreign_released {m = m} i o e ne) (w, inl idle) = ((release i o, refl), inl idle)
  Step-Kept (foreign_released {m = m} i o e ne) (w, inr own) =
      ((release i o, refl), inr (ap (λ x. some (release x o)) (owner_of i m e own) ∙ rw ne refl))

  Reach-Kept : {first m : Manager} → Kept first → Reach first m → Kept m
  Reach-Kept k here = k
  Reach-Kept k (next r s) = Step-Kept s (Reach-Kept k r)

  -- From an idle manager and a free interlock on, whatever is started and finished and whatever the
  -- other engines do: while a run of the sequence engine is active, no engine under any name can
  -- acquire the interlock.
  pub Reach-acquire :
      {m : Manager} (o : String)
      → Reach (record { interlock = some free; active = none }) m
      → (m.active ≡ none)
        ⊎ ((i : Interlock) × (m.interlock ≡ some i)
            × (i.owner ≡ interlock_owner)
            × ((acquire i o).1 ≡ false))
  unfolding acquire
  Reach-acquire {m} o r = elim (Reach-Kept ((free, refl), inl refl) r).1 [
    | inl idle ↦ inl idle
    | inr own ↦ inr (owned, own, refl, refl)
  ]
