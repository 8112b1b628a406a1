-- ===== src/Protocol/Parser/Stream.antt =====
-- What parser.go promises of the byte stream.
use dps150_web.Base.{ℕ, ◌≡◌, refl, List, [], ◌∷◌, ◌++◌, some, All, ◌>>=◌, arith, append-nil}
use mathlib.Core.List.{flatten}
use dps150_web.Protocol.Frame.{Frame, IsByte, header_rx}
use dps150_web.Protocol.Scan.{drain, scan, round, inspect, seek}
use dps150_web.Protocol.Scan.Chunks.{drain_total, drain-append, drain-Runs}
use dps150_web.Protocol.Scan.Runs.{Runs}
use dps150_web.Protocol.Scan.Soundness.{Carries, Runs-Carries, IsPartial, Runs-IsPartial}
use dps150_web.Protocol.Scan.Transmit.{Item, messages, transmit, IsClean, Runs-transmit}
use dps150_web.Protocol.Parser.{Parser, idle, is_read, feed, feed_all}

-- Feed ends on every input: no state of the parser and no chunk makes its loop run for ever.
pub feed_total :
    (p : Parser) (chunk : List ℕ) → (fs : List Frame) × (q : Parser) × (feed p chunk ≡ some (fs, q))
unfolding feed
feed_total p chunk =
    let (fs, r, run, e) = drain_total header_rx is_read p.buf chunk in
    (fs, record { buf = r }, rw e)

-- Feeding two chunks one after the other returns the frames, and leaves the parser, that feeding
-- them joined does.
pub feed-append :
    (p : Parser) (a b : List ℕ)
    → feed p (a ++ b) ≡ (feed p a >>= λ (fs, q). feed q b >>= λ (gs, r). some (fs ++ gs, r))
unfolding feed
feed-append p a b =
    let (fs, r, run, e) = drain_total header_rx is_read p.buf a in
    let (gs, s, run', e') = drain_total header_rx is_read r b in
    rw (drain-append header_rx is_read p.buf a b, e, e')

feed_all-flatten :
    (p : Parser) (c : List ℕ) (cs : List (List ℕ)) → feed_all p (c ∷ cs) ≡ feed p (c ++ flatten cs)
unfolding feed_all flatten
feed_all-flatten p c [] = let (fs, q, e) = feed_total p c in rw (append-nil c, e, append-nil fs)
feed_all-flatten p c (d ∷ ds) =
    let (fs, q, e) = feed_total p c in
    rw (feed-append p c (d ++ flatten ds), e, ← feed_all-flatten q d ds)

-- However the stream is cut into reads, a session sees the frames of the stream as a whole, and
-- its parser ends in the same state.
pub feed_all-idle : (chunks : List (List ℕ)) → feed_all idle chunks ≡ feed idle (flatten chunks)
unfolding feed_all flatten
feed_all-idle [] = unfold feed drain scan round inspect seek in refl
feed_all-idle (c ∷ cs) = feed_all-flatten idle c cs

-- Frames of GROUP A1 and noise without the byte F0, in any order, are decoded to exactly those
-- frames, and nothing stays buffered.
pub feed-transmit :
    (items : List Item) (stream : List ℕ)
    → All (IsClean header_rx is_read) items
    → transmit header_rx is_read items ≡ some stream
    → feed idle stream ≡ some (messages items, idle)
unfolding feed
feed-transmit items stream clean e =
    rw (drain-Runs header_rx is_read [] stream (Runs-transmit header_rx is_read items clean e))

feed-Runs :
    (p : Parser) (chunk : List ℕ) (fs : List Frame) (q : Parser)
    → feed p chunk ≡ some (fs, q)
    → Runs header_rx is_read (p.buf ++ chunk) fs q.buf
unfolding feed
feed-Runs p chunk fs q h =
    let (gs, r, run, e) = drain_total header_rx is_read p.buf chunk in
    let same : fs ≡ gs = ground arith in let kept : q.buf ≡ r = ground arith in rw (same, kept) run

-- The frames returned stand encoded in the buffered and fed bytes: in order, without overlap, with
-- GROUP A1 and a correct checksum; what stays buffered is the end of those bytes.
pub feed-Carries :
    (p : Parser) (chunk : List ℕ) (fs : List Frame) (q : Parser)
    → All IsByte (p.buf ++ chunk)
    → feed p chunk ≡ some (fs, q)
    → Carries header_rx is_read fs (p.buf ++ chunk) q.buf
feed-Carries p chunk fs q bs h = Runs-Carries header_rx is_read bs (feed-Runs p chunk fs q h)

-- What stays buffered is empty or begins with F0, and never exceeds 259 bytes, however much was fed.
pub feed-IsPartial :
    (p : Parser) (chunk : List ℕ) (fs : List Frame) (q : Parser)
    → All IsByte (p.buf ++ chunk)
    → feed p chunk ≡ some (fs, q)
    → IsPartial header_rx is_read q.buf
feed-IsPartial p chunk fs q bs h = Runs-IsPartial header_rx is_read bs (feed-Runs p chunk fs q h)
