-- ===== src/Protocol/Framing/Rejects.antt =====
-- What `read_raw_frame` refuses, and what it may return.
use clustertalk_githubaction.Prelude.{
  ℕ, zero, suc, ◌+◌, ◌-◌, ◌^◌, ◌≤◌, ◌<◌, ◌≡◌, arith, ap, inl, inr, Bool-cases, Option, List, [],
  ◌∷◌, ◌++◌, length, take, ok, err, >>=-eq-ok, raise_if, raise_if-eq-ok, take-append-drop,
  length-append, length-take, ltb, lt→ltb, append_assoc,
}
use clustertalk_githubaction.Protocol.MessageType.{MessageType, byte_of}
use clustertalk_githubaction.Protocol.Framing.{
  Bytes, Orjson, connection_closed, frame_too_large, too_small, unpack_length, readexactly, body_of,
  encode_frame, read_raw_frame,
}
use clustertalk_githubaction.Protocol.Framing.RoundTrip.{
  encode-layout, readexactly_of_length, ltb_of_le,
}

take-append :
    {A : Type 0} (xs ys : List A) (n : ℕ)
    → length xs ≤ n
    → take n (xs ++ ys) ≡ xs ++ take (n - length xs) ys
take-append [] ys n h = ap (λ k. take k ys) (omega arith)
take-append (x ∷ xs) ys zero h = absurd (omega arith)
take-append (x ∷ xs) ys (suc n) h =
    rw (take-append xs ys n (omega arith)) (ap (λ k. x ∷ xs ++ take k ys) (omega arith))

readexactly_short : (n : ℕ) (s : Bytes) → length s < n → readexactly n s ≡ err connection_closed
unfolding readexactly
readexactly_short n s h = ground arith

readexactly_sound :
    (n : ℕ) (s xs ys : Bytes) → readexactly n s ≡ ok (xs, ys) → (xs ++ ys ≡ s) × (length xs ≡ n)
unfolding readexactly
readexactly_sound n s xs ys h = ground (arith, take-append-drop n s, length-take n s)

module _ {P : Type 0} (json : Orjson P) (max : ℕ) (bounded : max < 2 ^ 32) where
  -- Under a limit below 2^32, a stream that ends inside an encoded frame that fits, at any byte,
  -- reads as a closed connection: no partial frame is ever returned.
  pub truncated-closed :
      (t : MessageType) (p : Option P) (frame : Bytes) (n : ℕ)
      → encode_frame json t p ≡ ok frame
      → suc (length (body_of json p)) ≤ max
      → n < length frame
      → read_raw_frame max (take n frame) ≡ err connection_closed
  unfolding read_raw_frame
  truncated-closed t p frame n encoded fits short =
      let (b, layout, len, unpacked) = encode-layout json t p (omega arith) in
      let body = byte_of t ∷ body_of json p in
      let e : frame ≡ b ++ body = ground (arith, encoded, layout) in
      elim (Bool-cases (ltb n 4)) [
        | inl early ↦ rw (readexactly_short 4 (take n frame) (ground (arith, length-take n frame)))
        | inr late ↦ rw (
          e,
          take-append b body n (ground arith),
          readexactly_of_length 4 b (take (n - length b) body) len,
          unpacked,
          ltb_of_le (length body) 1 (omega arith),
          ltb_of_le max (length body) fits,
          readexactly_short (length body) (take (n - length b) body) (
              omega (
                arith,
                length-take (n - length b) body,
                length-append b body,
                ap (length {A = ℕ}) e,
              )),
        )
      ]

  -- A frame that is larger than the limit and can be encoded is refused by its declared size once
  -- its four length bytes have arrived, whatever has arrived of its body.
  pub oversized-refused :
      (t : MessageType) (p : Option P) (frame : Bytes) (n : ℕ)
      → encode_frame json t p ≡ ok frame
      → suc (length (body_of json p)) < 2 ^ 32
      → max < suc (length (body_of json p))
      → 4 ≤ n
      → read_raw_frame max (take n frame)
        ≡ err (frame_too_large (suc (length (body_of json p))) max)
  unfolding read_raw_frame
  oversized-refused t p frame n encoded wide large header =
      let (b, layout, len, unpacked) = encode-layout json t p wide in
      let body = byte_of t ∷ body_of json p in
      let e : frame ≡ b ++ body = ground (arith, encoded, layout) in
      rw (
        e,
        take-append b body n (omega arith),
        readexactly_of_length 4 b (take (n - length b) body) len,
        unpacked,
        ltb_of_le (length body) 1 (omega arith),
        lt→ltb max (length body) large,
      )

frame-append :
    (b body tail' : Bytes) {tail raw rest stream : Bytes}
    → raw ≡ b ++ body
    → rest ≡ tail'
    → b ++ tail ≡ stream
    → body ++ tail' ≡ tail
    → raw ++ rest ≡ stream
frame-append b body tail' p q r t = cc (append_assoc b body tail')

-- A frame that is returned stood at the head of the stream, unchanged; it has at least the type
-- byte and is no longer than the limit allows.
pub read_raw_frame_sound :
    (max : ℕ) (stream raw rest : Bytes)
    → read_raw_frame max stream ≡ ok (raw, rest)
    → (raw ++ rest ≡ stream) × (5 ≤ length raw) × (length raw ≤ max + 4)
unfolding read_raw_frame
read_raw_frame_sound max stream raw rest h =
    let ((b, tail), p, h1) = >>=-eq-ok (readexactly 4 stream) _ h in
    let (n, q, h2) = >>=-eq-ok (unpack_length b) _ h1 in
    let (u, small, h3) = >>=-eq-ok (raise_if (ltb n 1) (too_small n)) _ h2 in
    let (v, large, h4) = >>=-eq-ok (raise_if (ltb max n) (frame_too_large n max)) _ h3 in
    let ((body, tail'), r, h5) = >>=-eq-ok (readexactly n tail) _ h4 in
    let head = readexactly_sound 4 stream b tail p in
    let rest_of = readexactly_sound n tail body tail' r in
    let whole : (raw ≡ b ++ body) × (rest ≡ tail') = ground (arith, h5) in
    (
      frame-append b body tail' whole.0 whole.1 head.0 rest_of.0,
      ground (arith, whole.0, head.1, rest_of.1, length-append b body, raise_if-eq-ok _ _ small),
      ground (arith, whole.0, head.1, rest_of.1, length-append b body, raise_if-eq-ok _ _ large),
    )
