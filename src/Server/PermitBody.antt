-- ===== src/Server/PermitBody.antt =====
-- crates/server/src/handlers.rs: PermitBody, the body of a segment in chunks.
use cmafly.Prelude.{
  ℕ, ◌+◌, ◌-◌, ◌*◌, ◌≤◌, ◌<◌, ◌≡◌, refl, ap, sym, ◌∙◌, arith, leb, if◌then◌else◌, min, Bool, true,
  false, Option, none, some, List, [], ◌∷◌, ◌++◌, length, take, drop, slice, concat, All,
  Bool-cases, inl, inr, ◌⊎◌, slice_split, take_all, length-take, length-drop,
}

-- The permit is held as long as the body is there.
pub record PermitBody : Type 0 where
  pub source : List ℕ
  pub pos : ℕ

abbrev pub permit_body_chunk_size : ℕ
permit_body_chunk_size = 65536

abbrev pub new_body : List ℕ → PermitBody
new_body buf = record { source = buf; pos = 0 }

abbrev pub remaining : PermitBody → ℕ
remaining b = length b.source - b.pos

-- The body behind a poll, and the frame, which `none` ends.
unfoldable pub poll_frame : PermitBody → PermitBody × Option (List ℕ)
poll_frame b =
    let n = min (length b.source - b.pos) permit_body_chunk_size in
    if leb (length b.source) b.pos
    then (b, none)
    else (record b { pos = b.pos + n }, some (slice b.pos n b.source))

abbrev pub is_end_stream : PermitBody → Bool
is_end_stream b = leb (length b.source) b.pos

-- The frames that polls give, from one state of a body to another.
pub data Polls : PermitBody → List (List ℕ) → PermitBody → Type 0 where
  stay : {b : PermitBody} → Polls b [] b
  poll :
      {b b' c : PermitBody} {frame : List ℕ} {frames : List (List ℕ)}
      → poll_frame b ≡ (b', some frame)
      → Polls b' frames c
      → Polls b (frame ∷ frames) c

-- A frame has a byte at least, and a chunk at most.
abbrev pub IsFrame : List ℕ → Type 0
IsFrame frame = (0 < length frame) × (length frame ≤ permit_body_chunk_size)

-- What polls have sent.
pub record Sent (b c : PermitBody) (frames : List (List ℕ)) : Type 0 where
  pub same : c.source ≡ b.source
  pub forward : b.pos ≤ c.pos
  pub inside : c.pos ≤ length b.source
  pub bytes : concat frames ≡ slice b.pos (c.pos - b.pos) b.source
  pub sizes : All IsFrame frames

-- The first poll of a body that is not at its end.
polled :
    (b : PermitBody)
    → b.pos < length b.source
    → let n = min (length b.source - b.pos) permit_body_chunk_size in
      poll_frame b ≡ (record b { pos = b.pos + n }, some (slice b.pos n b.source))
unfolding poll_frame
polled b h = let more : leb (length b.source) b.pos ≡ false = ground arith in rw more

-- What a poll that gives a frame did.
record Polled (b b' : PermitBody) (frame : List ℕ) : Type 0 where
  n : ℕ
  some : 0 < n
  chunk : n ≤ permit_body_chunk_size
  size : n ≡ min (length b.source - b.pos) permit_body_chunk_size
  inside : b.pos + n ≤ length b.source
  source : b'.source ≡ b.source
  pos : b'.pos ≡ b.pos + n
  frame_bytes : frame ≡ slice b.pos n b.source

abbrev value_or : Option (List ℕ) → List ℕ
value_or none = []
value_or (Option.some x) = x

poll_frame-Polled :
    (b b' : PermitBody) (frame : List ℕ) → poll_frame b ≡ (b', some frame) → Polled b b' frame
unfolding poll_frame
poll_frame-Polled b b' frame e = elim (Bool-cases (leb (length b.source) b.pos)) [
  | inl over ↦
      let ended : ◌≡◌ {A = PermitBody × Option (List ℕ)} (b, none) (b', some frame) =
        rw over at e in
      cc
  | inr more ↦
      let n = min (length b.source - b.pos) permit_body_chunk_size in
      let step : ◌≡◌ {A = PermitBody × Option (List ℕ)}
          (record b { pos = b.pos + n }, some (slice b.pos n b.source)) (b', some frame) =
        rw more at e in
      record {
        n = n;
        some = ground arith;
        chunk = omega arith;
        size = refl;
        inside = ground arith;
        source = ap (λ r. r.0.source) (sym step);
        pos = ap (λ r. r.0.pos) (sym step);
        frame_bytes = ap (λ r. value_or r.1) (sym step);
      }
]

-- The polls of a body send its bytes in order and once, in frames of a chunk at most, none empty: what
-- was sent is what lies between the two positions.
pub Polls-Sent :
    (b c : PermitBody) (frames : List (List ℕ))
    → Polls b frames c
    → b.pos ≤ length b.source
    → Sent b c frames
Polls-Sent b _ _ stay inside = record {
  same = refl;
  forward = omega arith;
  inside = inside;
  bytes = let none : 0 ≡ b.pos - b.pos = omega arith in ap (λ k. slice b.pos k b.source) none;
  sizes = tt;
}
Polls-Sent b c _ (poll {b' = b'} {frame = frame} {frames = frames} e rest) inside =
    let p = poll_frame-Polled b b' frame e in
    let len : length b'.source ≡ length b.source = ap length p.source in
    let sent = Polls-Sent b' c frames rest (omega (arith, p.pos, p.inside, len)) in
    let rest_size : c.pos - (b.pos + p.n) ≡ c.pos - b.pos - p.n = omega arith in
    let size : length frame ≡ p.n =
      ap length p.frame_bytes
      ∙ omega
          (arith, length-take p.n (drop b.pos b.source), length-drop b.pos b.source, p.inside) in
    record {
      same = sent.same ∙ p.source;
      forward = omega (arith, sent.forward, p.pos);
      inside = omega (arith, sent.inside, len);
      bytes =
          ap (λ f. f ++ concat frames) p.frame_bytes
          ∙ ap (λ r. slice b.pos p.n b.source ++ r)
              (sent.bytes
                ∙ ap (λ l. slice b'.pos (c.pos - b'.pos) l) p.source
                ∙ ap (λ k. slice k (c.pos - k) b.source) p.pos
                ∙ ap (λ k. slice (b.pos + p.n) k b.source) rest_size)
          ∙ sym
              (slice_split b.pos p.n (c.pos - b.pos) b.source (omega (arith, sent.forward, p.pos)));
      sizes = ((omega (arith, size, p.some), omega (arith, size, p.chunk)), sent.sizes);
    }

abbrev some_frame : PermitBody → List ℕ → PermitBody × Option (List ℕ)
some_frame b frame = (b, some frame)

-- Every frame but the last is a full chunk.
polled_pos :
    (b c : PermitBody) (frames : List (List ℕ))
    → Polls b frames c
    → b.pos ≤ length b.source
    → c.pos ≡ min (b.pos + length frames * permit_body_chunk_size) (length b.source)
polled_pos b _ _ stay inside = ground arith
polled_pos b c _ (poll {b' = b'} {frame = frame} {frames = frames} e rest) inside =
    let p = poll_frame-Polled b b' frame e in
    let len : length b'.source ≡ length b.source = ap length p.source in
    let ih = polled_pos b' c frames rest (omega (arith, p.pos, p.inside, len)) in
    ground (arith, ih, p.pos, p.chunk, p.size, len)

-- A body that has sent all its bytes.
pub record Ended (buf : List ℕ) (frames : List (List ℕ)) (c : PermitBody) : Type 0 where
  pub enough : length buf ≤ length frames * permit_body_chunk_size
  pub bytes : concat frames ≡ buf
  pub left : remaining c ≡ 0
  pub end : is_end_stream c ≡ true
  pub over : poll_frame c ≡ (c, none)

-- A body with bytes left: the next poll gives a chunk of them, or all where they are fewer.
pub record Going (buf : List ℕ) (frames : List (List ℕ)) (c : PermitBody) : Type 0 where
  pub early : length frames * permit_body_chunk_size < length buf
  pub bytes : concat frames ≡ take (length frames * permit_body_chunk_size) buf
  pub left : remaining c ≡ length buf - length frames * permit_body_chunk_size
  pub not_end : is_end_stream c ≡ false
  pub body : PermitBody
  pub next : poll_frame c ≡ (
    body,
    some (
        slice
          (length frames * permit_body_chunk_size)
          (min (remaining c) permit_body_chunk_size)
          buf),
  )

-- The polls of a new body give the bytes of the segment in full chunks, with what is left as the last
-- frame. As long as the frames are fewer than the segment has chunks, the end is not reported, and the next
-- poll gives the next chunk. When they are as many, their bytes are the segment, the end is reported and a
-- poll gives no frame.
pub new_body_lem :
    (buf : List ℕ) (frames : List (List ℕ)) (c : PermitBody)
    → Polls (new_body buf) frames c
    → Ended buf frames c ⊎ Going buf frames c
unfolding poll_frame
new_body_lem buf frames c polls =
    let b = new_body buf in
    let sent = Polls-Sent b c frames polls (omega arith) in
    let len : length c.source ≡ length buf = ap length sent.same in
    let pos : c.pos ≡ min (length frames * permit_body_chunk_size) (length buf) =
      omega (arith, polled_pos b c frames polls (omega arith)) in
    elim (Bool-cases (leb (length c.source) c.pos)) [
      | inl over ↦
          let all : c.pos - 0 ≡ length buf = ground (arith, len, sent.inside) in
          inl record {
            enough = ground (arith, pos, over, len);
            bytes = sent.bytes ∙ ap (λ k. take k buf) all ∙ take_all buf;
            left = ground (arith, over);
            end = over;
            over = rw over refl;
          }
      | inr more ↦
          let at : c.pos ≡ length frames * permit_body_chunk_size =
            ground (arith, pos, more, len) in
          let n = min (length c.source - c.pos) permit_body_chunk_size in
          inr record {
            early = ground (arith, pos, more, len);
            bytes =
                let none : c.pos - 0 ≡ c.pos = omega arith in
                sent.bytes ∙ ap (λ k. take k buf) (none ∙ at);
            left = ap (λ k. k - c.pos) len ∙ ap (λ k. length buf - k) at;
            not_end = more;
            body = record c { pos = c.pos + n };
            next = rw more (
                ap (λ l. some_frame (record c { pos = c.pos + n }) (slice c.pos n l)) sent.same
                ∙ ap (λ k. some_frame (record c { pos = c.pos + n }) (slice k n buf)) at);
          }
    ]
