-- ===== src/Protocol/Scan/Runs.antt =====
-- The decoder's loop as a relation, which forgets the fuel, and what a round does to a buffer that
-- more bytes follow.
use dps150_web.Base.{
  ℕ, zero, suc, ◌+◌, ◌≤◌, ◌<◌, ◌≡◌, refl, sym, ◌∙◌, Bool, true, List, [], ◌∷◌, ◌++◌, some, inl, inr,
  length, get_or, arith, append-nil, append_assoc, length-append, length-drop, take-append,
  drop-append, Bool-cases,
}
use dps150_web.Protocol.Frame.{Frame}
use dps150_web.Protocol.Scan.{Round, wait, skip, emit, seek, framed, inspect, round, scan}

length-seek : (h : ℕ) (b : List ℕ) → length (seek h b) ≤ length b
unfolding seek
length-seek h [] = omega arith
length-seek h (x ∷ xs) = ground (arith, length-seek h xs)

-- What stands before the first header byte may be dropped early.
seek-seek_append : (h : ℕ) (a b : List ℕ) → seek h (seek h a ++ b) ≡ seek h (a ++ b)
unfolding seek
seek-seek_append h [] b = refl
seek-seek_append h (x ∷ xs) b = ground (arith, seek-seek_append h xs b)

pub seek_head : (h : ℕ) (a : List ℕ) (x : ℕ) (xs : List ℕ) → seek h a ≡ x ∷ xs → x ≡ h
unfolding seek
seek_head h [] x xs e = cc
seek_head h (y ∷ ys) x xs e = ground (arith, seek_head h ys x xs)

pub seek_self : (h : ℕ) (xs : List ℕ) → seek h (h ∷ xs) ≡ h ∷ xs
unfolding seek
seek_self h xs = ground arith

seek_kept :
    (h : ℕ) (a : List ℕ) (x : ℕ) (xs ys : List ℕ) → seek h a ≡ x ∷ xs → seek h (x ∷ ys) ≡ x ∷ ys
seek_kept h a x xs ys e = rw (seek_head h a x xs e) (seek_self h ys)

get_or-append : (n : ℕ) (a b : List ℕ) → n < length a → get_or (a ++ b) n 0 ≡ get_or a n 0
get_or-append n [] b h = elim h [ ]
get_or-append zero (x ∷ a) b h = refl
get_or-append (suc n) (x ∷ a) b h = get_or-append n a b (omega arith)

-- A round's outcome, with more bytes behind the buffer.
abbrev pub Extend : Round → List ℕ → Round → Type 0
Extend (wait r) b whole = Unit
Extend (skip r) b whole = whole ≡ skip (r ++ b)
Extend (emit f r) b whole = whole ≡ emit f (r ++ b)

framed-append : (h g : ℕ) (rest b : List ℕ) → Extend (framed h g rest) b (framed h g (rest ++ b))
unfolding framed
framed-append h g [] b = tt
framed-append h g (r ∷ []) b = tt
framed-append h g (r ∷ n ∷ body) b = ground (
  arith,
  length-append body b,
  take-append n body b,
  get_or-append n body b,
  drop-append (n + 1) body b,
)

framed_wait : (h g : ℕ) (rest : List ℕ) {r : List ℕ} → framed h g rest ≡ wait r → r ≡ h ∷ g ∷ rest
unfolding framed
framed_wait h g [] e = ground arith
framed_wait h g (x ∷ []) e = ground arith
framed_wait h g (x ∷ n ∷ body) e = ground arith

-- A round that goes on has shortened the buffer, of length `n`.
abbrev Shortens : Round → ℕ → Type 0
Shortens (wait r) n = Unit
Shortens (skip r) n = length r < n
Shortens (emit f r) n = length r < n

framed-Shortens : (h g : ℕ) (rest : List ℕ) → Shortens (framed h g rest) (length rest + 2)
unfolding framed
framed-Shortens h g [] = tt
framed-Shortens h g (x ∷ []) = tt
framed-Shortens h g (x ∷ n ∷ body) = ground (arith, length-drop (n + 1) body)

module _ (header : ℕ) (valid_group : ℕ → Bool) where
  pub round-inspect :
      (buf : List ℕ) → round header valid_group buf ≡ inspect header valid_group (seek header buf)
  unfolding round
  round-inspect buf = refl

  pub inspect_valid :
      (h g : ℕ) (rest : List ℕ)
      → valid_group g ≡ true
      → inspect header valid_group (h ∷ g ∷ rest) ≡ framed h g rest
  unfolding inspect
  inspect_valid h g rest v = rw v

  inspect-append :
      (s b : List ℕ) → Extend (inspect header valid_group s) b (inspect header valid_group (s ++ b))
  unfolding inspect
  inspect-append [] b = tt
  inspect-append (h ∷ []) b = tt
  inspect-append (h ∷ g ∷ rest) b = elim (Bool-cases (valid_group g)) [
    | inl e ↦ rw e (framed-append h g rest b)
    | inr e ↦ rw e refl
  ]

  pub inspect_wait : (s : List ℕ) {r : List ℕ} → inspect header valid_group s ≡ wait r → r ≡ s
  unfolding inspect
  inspect_wait [] e = cc
  inspect_wait (h ∷ []) e = cc
  inspect_wait (h ∷ g ∷ rest) e = ground (arith, framed_wait h g rest)

  inspect-Shortens : (s : List ℕ) → Shortens (inspect header valid_group s) (length s)
  unfolding inspect
  inspect-Shortens [] = tt
  inspect-Shortens (h ∷ []) = tt
  inspect-Shortens (h ∷ g ∷ rest) = ground (arith, framed-Shortens h g rest)

  round-Shortens : (a : List ℕ) → Shortens (round header valid_group a) (length a)
  unfolding round
  round-Shortens a = ground (arith, inspect-Shortens (seek header a), length-seek header a)

  -- A round that skips or returns a frame does the same with more bytes behind the buffer.
  round-append :
      (a b : List ℕ) → Extend (round header valid_group a) b (round header valid_group (a ++ b))
  unfolding round
  round-append a b = go (seek header a) refl
    where
      go :
          (s : List ℕ) (e : seek header a ≡ s)
          → Extend
              (inspect header valid_group s)
              b
              (inspect header valid_group (seek header (a ++ b)))
      go [] e = tt
      go (x ∷ xs) e =
          rw (← seek-seek_append header a b, e, seek_kept header a x xs (xs ++ b) e)
            (inspect-append (x ∷ xs) b)

  -- A round that waits gives up nothing that a later round needs.
  round_wait-append :
      (a b : List ℕ) {r : List ℕ}
      → round header valid_group a ≡ wait r
      → round header valid_group (r ++ b) ≡ round header valid_group (a ++ b)
  unfolding round
  round_wait-append a b e = rw (inspect_wait (seek header a) e, seek-seek_append header a b) refl

  -- `Runs a fs r`: from the buffer `a` the loop returns the frames `fs` and keeps `r`.
  pub data Runs : List ℕ → List Frame → List ℕ → Type 0 where
    stops : {a r : List ℕ} → round header valid_group a ≡ wait r → Runs a [] r
    skips :
        {a b r : List ℕ} {fs : List Frame}
        → round header valid_group a ≡ skip b
        → Runs b fs r
        → Runs a fs r
    emits :
        {a b r : List ℕ} {f : Frame} {fs : List Frame}
        → round header valid_group a ≡ emit f b
        → Runs b fs r
        → Runs a (f ∷ fs) r

  pub Runs-same_round :
      {a b : List ℕ} {fs : List Frame} {r : List ℕ}
      → round header valid_group a ≡ round header valid_group b
      → Runs a fs r
      → Runs b fs r
  Runs-same_round e (stops h) = stops (sym e ∙ h)
  Runs-same_round e (skips h rest) = skips (sym e ∙ h) rest
  Runs-same_round e (emits h rest) = emits (sym e ∙ h) rest

  -- A run on the first bytes and one on what it keeps make a run on them all.
  pub Runs-append :
      {a r s : List ℕ} {fs gs : List Frame} (b : List ℕ)
      → Runs a fs r
      → Runs (r ++ b) gs s
      → Runs (a ++ b) (fs ++ gs) s
  Runs-append b (stops {a = a} h) k = Runs-same_round (round_wait-append a b h) k
  Runs-append b (skips {a = a} h rest) k =
      skips ((rw h at (round-append a b))) (Runs-append b rest k)
  Runs-append b (emits {a = a} h rest) k =
      emits ((rw h at (round-append a b))) (Runs-append b rest k)

  -- The loop computes the run, if its fuel exceeds the buffer.
  pub scan-Runs :
      {a r : List ℕ} {fs : List Frame} (fuel : ℕ) (acc : List Frame)
      → Runs a fs r
      → length a < fuel
      → scan header valid_group fuel a acc ≡ some (acc ++ fs, r)
  unfolding scan
  scan-Runs zero acc run h = absurd (omega arith)
  scan-Runs (suc n) acc (stops e) h = rw (e, scan, append-nil acc)
  scan-Runs (suc n) acc (skips {a = a} e rest) h =
      rw (e, scan) (scan-Runs n acc rest (omega (arith, rw e at (round-Shortens a))))
  scan-Runs (suc n) acc (emits {a = a} {f = f} {fs = fs} e rest) h =
      rw (e, scan, ← append_assoc acc (f ∷ []) fs)
        (scan-Runs n (acc ++ (f ∷ [])) rest (omega (arith, rw e at (round-Shortens a))))

  -- Every buffer has a run.
  pub Runs-total :
      (n : ℕ) (a : List ℕ) → length a < n → (fs : List Frame) × (r : List ℕ) × Runs a fs r
  Runs-total zero a h = absurd (omega arith)
  Runs-total (suc n) a h = go (round header valid_group a) refl (round-Shortens a) (Runs-total n)
    where
      go :
          (o : Round) (e : round header valid_group a ≡ o) (short : Shortens o (length a))
          (ih : (b : List ℕ) → length b < n → (fs : List Frame) × (r : List ℕ) × Runs b fs r)
          → (fs : List Frame) × (r : List ℕ) × Runs a fs r
      go (wait r) e short ih = ([], r, stops e)
      go (skip b) e short ih = let (fs, r, run) = ih b (omega arith) in (fs, r, skips e run)
      go (emit f b) e short ih = let (fs, r, run) = ih b (omega arith) in (f ∷ fs, r, emits e run)
