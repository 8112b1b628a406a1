-- ===== src/Protocol/Scan/Chunks.antt =====
-- The decoder of parser.go and txparser.go on a stream that is cut into chunks.
use dps150_web.Base.{ℕ, suc, ◌≡◌, Bool, List, [], ◌++◌, some, length, arith, append_assoc, ◌>>=◌}
use dps150_web.Protocol.Frame.{Frame}
use dps150_web.Protocol.Scan.{drain}
use dps150_web.Protocol.Scan.Runs.{Runs, Runs-append, Runs-total, scan-Runs}

module _ (header : ℕ) (valid_group : ℕ → Bool) where
  pub drain-Runs :
      (buf chunk : List ℕ) {r : List ℕ} {fs : List Frame}
      → Runs header valid_group (buf ++ chunk) fs r
      → drain header valid_group buf chunk ≡ some (fs, r)
  unfolding drain
  drain-Runs buf chunk run =
      scan-Runs header valid_group (suc (length (buf ++ chunk))) [] run (omega arith)

  -- The decoder's loop ends on every buffer and chunk, and its result is a run of the loop.
  pub drain_total :
      (buf chunk : List ℕ)
      → (fs : List Frame) × (r : List ℕ) × Runs header valid_group (buf ++ chunk) fs r
        × (drain header valid_group buf chunk ≡ some (fs, r))
  drain_total buf chunk =
      let (fs, r, run) =
        Runs-total header valid_group (suc (length (buf ++ chunk))) (buf ++ chunk) (omega arith) in
      (fs, r, run, drain-Runs buf chunk run)

  -- One chunk or its two parts: the frames and the bytes kept are the same.
  pub drain-append :
      (buf a b : List ℕ)
      → drain header valid_group buf (a ++ b) ≡ (
          drain header valid_group buf a >>= λ (fs, r).
          drain header valid_group r b >>= λ (gs, s). some (fs ++ gs, s))
  drain-append buf a b =
      let (fs, r, run, e) = drain_total buf a in
      let (gs, s, run', e') = drain_total r b in
      rw (e, e')
        (drain-Runs buf (a ++ b)
          (rw (append_assoc buf a b) at (Runs-append header valid_group b run run')))
