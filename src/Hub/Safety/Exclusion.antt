-- ===== src/Hub/Safety/Exclusion.antt =====
-- The attempts of SafeOutputOff and the claims on the interlock of safety.go.
use dps150_web.Base.{
  ℕ, suc, ◌≡◌, ◌≢◌, refl, sym, ap, ◌∙◌, true, false, List, [], ◌∷◌, All, Option, none, Bool-cases,
  Option-cases, ◌⊎◌, inl, inr, if◌then◌else◌,
}
use Prim.Native.String.{String}
use text.Mathlib.Text.{◌==◌}
use dps150_web.Hub.Safety.{off_attempts, safe_output_off, Interlock, free, acquire, release, busy}

-- SafeOutputOff stops at the first attempt that succeeds and returns nil; when all three fail it
-- returns the error of the third, so it returns nil exactly if one of three attempts succeeds.
pub safe_output_off_lem {ℓ} :
    {E : Type ℓ} (outcome : ℕ → Option E)
    → ((outcome 0 ≡ none) × (safe_output_off outcome ≡ (none, 1)))
      ⊎ ((outcome 0 ≢ none) × (outcome 1 ≡ none) × (safe_output_off outcome ≡ (none, 2)))
      ⊎ ((outcome 0 ≢ none)
          × (outcome 1 ≢ none)
          × (outcome 2 ≡ none)
          × (safe_output_off outcome ≡ (none, 3)))
      ⊎ ((outcome 0 ≢ none)
          × (outcome 1 ≢ none)
          × (outcome 2 ≢ none)
          × (safe_output_off outcome ≡ (outcome 2, 3)))
unfolding safe_output_off off_attempts
safe_output_off_lem outcome = elim (Option-cases (outcome 0)) [
  | inl e ↦ inl (e, rw e refl)
  | inr (x, e) ↦ elim (Option-cases (outcome 1)) [
    | inl f ↦ inr (inl (λ n. cc, f, rw (e, f) refl))
    | inr (y, f) ↦ elim (Option-cases (outcome 2)) [
      | inl g ↦ inr (inr (inl (λ n. cc, λ n. cc, g, rw (e, f, g) refl)))
      | inr (z, g) ↦ inr (inr (inr (λ n. cc, λ n. cc, λ n. cc, rw (e, f, g) (ap (λ r. (r, 3)) g))))
    ]
  ]
]

-- The attempt that SafeOutputOff stops at, and whose error it returns, is one that succeeds or the third.
pub safe_output_off-last {ℓ} :
    {E : Type ℓ} (outcome : ℕ → Option E)
    → (k : ℕ) × (safe_output_off outcome ≡ (outcome k, suc k)) × ((outcome k ≡ none) ⊎ (k ≡ 2))
safe_output_off-last outcome = elim (safe_output_off_lem outcome) [
  | inl (a, e) ↦ (0, e ∙ ap (λ o. (o, 1)) (sym a), inl a)
  | inr (inl (a, b, e)) ↦ (1, e ∙ ap (λ o. (o, 2)) (sym b), inl b)
  | inr (inr (inl (a, b, c, e))) ↦ (2, e ∙ ap (λ o. (o, 3)) (sym c), inr refl)
  | inr (inr (inr (a, b, c, e))) ↦ (2, e, inr refl)
]

-- What the engines do with the interlock.
pub data Use : Type 0 where
  acquires : String → Use
  releases : String → Use

abbrev IsNamed : Use → Type 0
IsNamed (acquires o) = (o == "") ≡ false
IsNamed (releases o) = Unit

abbrev pub without : String → List String → List String
without o [] = []
without o (c ∷ cs) = if c == o then without o cs else c ∷ without o cs

-- The engines that have been told that they own the output and have not released it since.
abbrev pub claims : Interlock → List String → List Use → List String
claims i cs [] = cs
claims i cs (acquires o ∷ us) = claims (acquire i o).0 (if (acquire i o).1 then o ∷ cs else cs) us
claims i cs (releases o ∷ us) = claims (release i o) (without o cs) us

-- The interlock itself after these uses.
abbrev pub after : Interlock → List Use → Interlock
after i [] = i
after i (acquires o ∷ us) = after (acquire i o).0 us
after i (releases o ∷ us) = after (release i o) us

-- The claims are those of the interlock's owner alone.
abbrev pub Matches : Interlock → List String → Type 0
Matches i cs = ((i.owner ≡ "") × (cs ≡ [])) ⊎ (((i.owner == "") ≡ false) × (cs ≡ i.owner ∷ []))

acquire-Matches :
    (i : Interlock) (o : String) (cs : List String)
    → (o == "") ≡ false
    → Matches i cs
    → Matches (acquire i o).0 (if (acquire i o).1 then o ∷ cs else cs)
unfolding acquire
acquire-Matches i o cs named (inl (e, c)) = rw (e, c) (inr (named, refl))
acquire-Matches i o cs named (inr (e, c)) = rw (e, c) (inr (e, refl))

release-Matches :
    (i : Interlock) (o : String) (cs : List String)
    → Matches i cs
    → Matches (release i o) (without o cs)
unfolding release
release-Matches i o cs (inl (e, c)) = elim (Bool-cases (i.owner == o)) [
  | inl q ↦ rw (q, c) (inl (refl, refl))
  | inr q ↦ rw (q, c) (inl (e, refl))
]
release-Matches i o cs (inr (e, c)) = elim (Bool-cases (i.owner == o)) [
  | inl q ↦ rw (q, c) (inl (refl, ap (λ b. if b then [] else i.owner ∷ []) q))
  | inr q ↦ rw (q, c) (inr (e, ap (λ b. if b then [] else i.owner ∷ []) q))
]

claims-Matches :
    (us : List Use) (i : Interlock) (cs : List String)
    → All IsNamed us
    → Matches i cs
    → Matches (after i us) (claims i cs us)
claims-Matches [] i cs named m = m
claims-Matches (acquires o ∷ us) i cs (n, named) m =
    claims-Matches us _ _ named (acquire-Matches i o cs n m)
claims-Matches (releases o ∷ us) i cs (n, named) m =
    claims-Matches us _ _ named (release-Matches i o cs m)

-- From the free interlock on, and whatever engines with a name acquire and release in whatever order:
-- the engines that hold a claim are the interlock's owner and no other, so there is at most one, and
-- the interlock is busy exactly when there is one.
pub claims-busy :
    (us : List Use)
    → All IsNamed us
    → ((busy (after free us) ≡ false) × (claims free [] us ≡ []))
      ⊎ ((busy (after free us) ≡ true) × (claims free [] us ≡ (after free us).owner ∷ []))
unfolding busy
claims-busy us named = elim (claims-Matches us free [] named (inl (refl, refl))) [
  | inl (e, c) ↦ inl (rw e refl, c)
  | inr (e, c) ↦ inr (rw e refl, c)
]
