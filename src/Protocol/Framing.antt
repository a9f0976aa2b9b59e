-- ===== src/Protocol/Framing.antt =====
-- protocol/framing.py: `[4-byte length][1-byte type][payload]`. A stream is the list of the bytes
-- that the peer sends before it closes. The serialiser orjson is a parameter.
pub mod RoundTrip
pub mod Rejects
use clustertalk_githubaction.Prelude.{
  ℕ, zero, suc, ◌+◌, ◌*◌, ◌/◌, ◌%◌, ◌^◌, ◌<◌, ◌≡◌, Option, none, some, List, [], ◌∷◌, ◌++◌, length,
  take, drop, ltb, if◌then◌else◌, Result, ok, err, ◌>>=◌, ◌>>◌, raise_if,
}
use clustertalk_githubaction.Protocol.MessageType.{MessageType, byte_of, of_byte}

abbrev pub Bytes : Type 0
Bytes = List ℕ

-- orjson on the payloads `P`: what is dumped is not empty and loads back.
pub record Orjson (P : Type 0) : Type 0 where
  pub dumps : P → Bytes
  pub loads : Bytes → Option P
  pub loads-dumps : (p : P) → loads (dumps p) ≡ some p
  pub dumps-pos : (p : P) → 0 < length (dumps p)

pub data FrameError : Type 0 where
  -- `ConnectionClosed`
  connection_closed : FrameError
  -- `FrameTooLarge(declared_size, max_size)`
  frame_too_large : ℕ → ℕ → FrameError
  -- a declared size smaller than the type byte
  too_small : ℕ → FrameError
  unknown_type : ℕ → FrameError
  -- `orjson.JSONDecodeError`
  json_error : FrameError
  -- `struct.error`
  struct_error : FrameError

abbrev pub length_prefix_size : ℕ
length_prefix_size = 4

abbrev pub type_size : ℕ
type_size = 1

abbrev pub default_max_frame_size : ℕ
default_max_frame_size = 1 * 1024 * 1024

-- `_LENGTH_STRUCT.pack`, format ">I"
unfoldable pub pack_length : ℕ → Result FrameError Bytes
pack_length n =
    if ltb n (2 ^ 32)
    then ok (n / 2 ^ 24 ∷ n / 2 ^ 16 % 256 ∷ n / 2 ^ 8 % 256 ∷ n % 256 ∷ [])
    else err struct_error

-- `_LENGTH_STRUCT.unpack`
unfoldable pub unpack_length : Bytes → Result FrameError ℕ
unpack_length (a ∷ b ∷ c ∷ d ∷ []) = ok (a * 2 ^ 24 + b * 2 ^ 16 + c * 2 ^ 8 + d)
unpack_length _ = err struct_error

-- `StreamReader.readexactly`: the bytes read and those left; an incomplete read is a closed peer
unfoldable pub readexactly : ℕ → Bytes → Result FrameError (Bytes × Bytes)
readexactly n stream =
    if ltb (length stream) n then err connection_closed else ok (take n stream, drop n stream)

module _ {P : Type 0} (json : Orjson P) where
  unfoldable pub body_of : Option P → Bytes
  body_of none = []
  body_of (some p) = json.dumps p

  unfoldable pub encode_frame : MessageType → Option P → Result FrameError Bytes
  encode_frame msg_type payload =
      let type_and_body = byte_of msg_type ∷ body_of payload in
      do length_prefix ← pack_length (length type_and_body); ok (length_prefix ++ type_and_body)

-- `read_raw_frame`: the frame and the bytes after it
unfoldable pub read_raw_frame : ℕ → Bytes → Result FrameError (Bytes × Bytes)
read_raw_frame max_frame_size stream = do
  (length_bytes, rest) ← readexactly length_prefix_size stream
  declared_size ← unpack_length length_bytes
  raise_if (ltb declared_size type_size) (too_small declared_size)
  raise_if (ltb max_frame_size declared_size) (frame_too_large declared_size max_frame_size)
  (body, rest') ← readexactly declared_size rest
  ok (length_bytes ++ body, rest')

member_of : ℕ → Option MessageType → Result FrameError MessageType
member_of b none = err (unknown_type b)
member_of b (some t) = ok t

module _ {P : Type 0} (json : Orjson P) where
  loaded : Option P → Result FrameError (Option P)
  loaded none = err json_error
  loaded (some p) = ok (some p)

  load_payload : Bytes → Result FrameError (Option P)
  load_payload [] = ok none
  load_payload (b ∷ bs) = loaded (json.loads (b ∷ bs))

  decode_body : Bytes → Result FrameError (MessageType × Option P)
  decode_body [] = err struct_error
  decode_body (type_byte ∷ payload_bytes) = do
    msg_type ← member_of type_byte (of_byte type_byte)
    payload ← load_payload payload_bytes
    ok (msg_type, payload)

  unfoldable pub decode_frame_body : Bytes → Result FrameError (MessageType × Option P)
  unfolding decode_body load_payload loaded member_of
  decode_frame_body raw_frame = decode_body (drop length_prefix_size raw_frame)

  unfoldable pub read_frame : ℕ → Bytes → Result FrameError ((MessageType × Option P) × Bytes)
  read_frame max_frame_size stream = do
    (raw, rest) ← read_raw_frame max_frame_size stream
    frame ← decode_frame_body raw
    ok (frame, rest)
