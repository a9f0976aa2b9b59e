-- ===== src/Protocol/Framing/RoundTrip.antt =====
-- Reading back what `encode_frame` wrote.
use clustertalk_githubaction.Prelude.{
  ℕ, suc, ◌^◌, ◌≤◌, ◌<◌, ◌≡◌, refl, arith, append_assoc, false, ap, Option, none, some, [], ◌∷◌,
  ◌++◌, length, drop, ok, take-append_length, drop-append_length, length-append, ltb, lt→ltb,
}
use clustertalk_githubaction.Protocol.MessageType.{MessageType, byte_of, of_byte-byte_of}
use clustertalk_githubaction.Protocol.Framing.{
  Bytes, Orjson, pack_length, unpack_length, readexactly, body_of, encode_frame, read_raw_frame,
  decode_frame_body, read_frame, decode_body, load_payload, loaded, member_of,
}

-- The four bytes of a length below 2^32 unpack to the length.
pub unpack-pack :
    (n : ℕ)
    → n < 2 ^ 32
    → (b : Bytes) × (pack_length n ≡ ok b) × (length b ≡ 4) × (unpack_length b ≡ ok n)
unfolding pack_length unpack_length
unpack-pack n h = rw (lt→ltb n (2 ^ 32) h) (_, refl, refl, ap ok (omega arith))

pub ltb_of_le : (a b : ℕ) → b ≤ a → ltb a b ≡ false
ltb_of_le a b h = ground arith

drop_of_length : (n : ℕ) (xs ys : Bytes) → length xs ≡ n → drop n (xs ++ ys) ≡ ys
drop_of_length n xs ys e = rw (← e) (drop-append_length xs ys)

pub readexactly-append : (xs ys : Bytes) → readexactly (length xs) (xs ++ ys) ≡ ok (xs, ys)
unfolding readexactly
readexactly-append xs ys =
    ground (arith, take-append_length xs ys, drop-append_length xs ys, length-append xs ys)

loads-dumps_cons :
    {P : Type 0} (json : Orjson P) (p : P) (bs : Bytes)
    → json.dumps p ≡ bs
    → load_payload json bs ≡ ok (some p)
unfolding load_payload loaded
loads-dumps_cons json p [] e = absurd (omega (arith, json.dumps-pos p, ap (length {A = ℕ}) e))
loads-dumps_cons json p (b ∷ bs) e = ground (arith, json.loads-dumps p)

module _ {P : Type 0} (json : Orjson P) where
  load-body : (p : Option P) → load_payload json (body_of json p) ≡ ok p
  unfolding load_payload body_of
  load-body none = refl
  load-body (some p) = loads-dumps_cons json p (json.dumps p) refl

  decode-body :
      (t : MessageType) (p : Option P) → decode_body json (byte_of t ∷ body_of json p) ≡ ok (t, p)
  unfolding decode_body member_of
  decode-body t p = rw (of_byte-byte_of t, load-body p)

  -- An encoded frame is the length of type and payload, the type byte, the payload.
  pub encode-layout :
      (t : MessageType) (p : Option P)
      → suc (length (body_of json p)) < 2 ^ 32
      → (b : Bytes) × (encode_frame json t p ≡ ok (b ++ byte_of t ∷ body_of json p))
        × (length b ≡ 4)
        × (unpack_length b ≡ ok (suc (length (body_of json p))))
  unfolding encode_frame
  encode-layout t p h =
      let (b, packed, len, unpacked) = unpack-pack (suc (length (body_of json p))) h in
      (b, rw packed, len, unpacked)

pub readexactly_of_length :
    (n : ℕ) (xs ys : Bytes) → length xs ≡ n → readexactly n (xs ++ ys) ≡ ok (xs, ys)
readexactly_of_length n xs ys e = rw (← e) (readexactly-append xs ys)

-- A whole frame at the head of a stream is read, and what follows it is left.
pub read_raw_frame-append :
    (max n : ℕ) (b body rest : Bytes)
    → length b ≡ 4
    → unpack_length b ≡ ok n
    → length body ≡ n
    → 1 ≤ n
    → n ≤ max
    → read_raw_frame max (b ++ (body ++ rest)) ≡ ok (b ++ body, rest)
unfolding read_raw_frame
read_raw_frame-append max n b body rest len unpacked e small large = rw (
  readexactly_of_length 4 b (body ++ rest) len,
  unpacked,
  ltb_of_le n 1 small,
  ltb_of_le max n large,
  readexactly_of_length n body rest e,
)

module _ {P : Type 0} (json : Orjson P) (max : ℕ) (bounded : max < 2 ^ 32) where
  -- Under a limit below 2^32, reading back an encoded frame that fits gives the type and the
  -- payload, and leaves what follows the frame in the stream.
  pub read-encode :
      (t : MessageType) (p : Option P) (rest : Bytes)
      → suc (length (body_of json p)) ≤ max
      → (frame : Bytes) × (encode_frame json t p ≡ ok frame)
        × (read_frame json max (frame ++ rest) ≡ ok ((t, p), rest))
  unfolding read_frame decode_frame_body
  read-encode t p rest fits =
      let (b, encoded, len, unpacked) = encode-layout json t p (omega arith) in
      let body = byte_of t ∷ body_of json p in
      (
        b ++ body,
        encoded,
        rw (
          append_assoc,
          read_raw_frame-append max _ b body rest len unpacked refl (omega arith) fits,
          drop_of_length 4 b body len,
          decode-body json t p,
        ),
      )
