-- ===== src/Ingress/WsBridge.antt =====
-- ingress/ws_bridge.py: JSON messages of a browser as frames of the node protocol, and back. The
-- bridge has its own table of types and its own codec. JSON values are a parameter.
pub mod Codec
pub mod Stream
mod Examples
use clustertalk_githubaction.Node.SessionManager.{values}
use clustertalk_githubaction.Prelude.{
  zero, suc, List, raise_if, length, ◌>>=◌, ◌>>◌, ◌%◌, ltb, ◌/◌, [], if◌then◌else◌, ℕ, ◌+◌, ◌∷◌,
  ◌++◌, ◌≡◌, Result, not, Option, Bool, err, ok, true, none, some, nat_eq, list_eq, Text, codes,
}
use clustertalk_githubaction.Prelude.Dict
use clustertalk_githubaction.Prelude.Dict.{Dict}
use clustertalk_githubaction.Protocol.Framing.{
  default_max_frame_size, unpack_length, type_size, readexactly, pack_length, length_prefix_size,
  Bytes, Orjson, FrameError, connection_closed, frame_too_large, too_small, unknown_type,
  json_error, struct_error,
}

-- What the bridge asks of JSON values: strings, Python's truth value, and whether they can be a key.
pub record Values (V : Type 0) : Type 0 where
  pub text : Text → V
  pub yes : V
  pub as_text : V → Option Text
  pub truthy : V → Bool
  pub hashable : V → Bool
  pub as_text-text : (t : Text) → as_text (text t) ≡ some t
  pub truthy-text : (c : ℕ) (t : Text) → truthy (text (c ∷ t)) ≡ true
  pub hashable-text : (t : Text) → hashable (text t) ≡ true

pub data BridgeError : Type 0 where
  -- `ConnectionError`
  connection_error : BridgeError
  key_error : BridgeError
  -- `orjson.JSONDecodeError` on what the backend sent
  decode_error : BridgeError
  -- the message of a browser is JSON but no object
  not_an_object : BridgeError
  -- its `type` cannot be a key
  unhashable : BridgeError
  pack_error : BridgeError

abbrev pub name_to_type : Dict Text ℕ
name_to_type =
    (codes "HELLO", 0x01)
    ∷ (codes "HELLO_ACK", 0x02)
    ∷ (codes "PING", 0x03)
    ∷ (codes "PONG", 0x04)
    ∷ (codes "MESSAGE", 0x05)
    ∷ (codes "ACK", 0x06)
    ∷ (codes "ERROR", 0x07)
    ∷ (codes "NODE_ANNOUNCE", 0x08)
    ∷ (codes "NODE_STATUS", 0x09)
    ∷ (codes "SESSION_BIND", 0x0a)
    ∷ (codes "DISCONNECT", 0x0b)
    ∷ (codes "JOIN_ROOM", 0x0c)
    ∷ (codes "ROOM_JOINED", 0x0d)
    ∷ (codes "PEER_HELLO", 0x0e)
    ∷ (codes "RELAY", 0x0f)
    ∷ (codes "SESSION_QUERY", 0x10)
    ∷ (codes "SESSION_STATE", 0x11)
    ∷ (codes "REGISTER", 0x12)
    ∷ (codes "REGISTER_ACK", 0x13)
    ∷ (codes "LOGIN", 0x14)
    ∷ (codes "LOGIN_ACK", 0x15)
    ∷ (codes "GET_ROOMS", 0x16)
    ∷ (codes "ROOMS_LIST", 0x17)
    ∷ []

-- `{v: k for k, v in d.items()}`
inverted : Dict Text ℕ → Dict ℕ Text → Dict ℕ Text
inverted [] done = done
inverted ((k, v) ∷ d) done = inverted d (Dict.put v k done)

unfoldable pub type_to_name : ℕ → Option Text
unfolding inverted
type_to_name b = Dict.get b (inverted name_to_type [])

-- A digit of `:02X`
abbrev upper_digit : ℕ → ℕ
upper_digit n = if ltb n 10 then 48 + n else 55 + n

unfoldable pub type_name : ℕ → Text
type_name b = elim (type_to_name b) [
  | some name ↦ name
  | none ↦ codes "UNKNOWN_0x" ++ upper_digit (b / 16) ∷ upper_digit (b % 16) ∷ []
]

unfoldable pub find_type : Text → Option ℕ
find_type name = Dict.get name name_to_type

-- An exception of the stream or of `struct` as the bridge raises it
abbrev pub bridged : {A : Type 0} → Result FrameError A → Result BridgeError A
bridged (ok a) = ok a
bridged (err connection_closed) = err connection_error
bridged (err (frame_too_large n max)) = err connection_error
bridged (err (too_small n)) = err connection_error
bridged (err (unknown_type b)) = err key_error
bridged (err json_error) = err decode_error
bridged (err struct_error) = err pack_error

module _ {V : Type 0} (values : Values V) (json : Orjson (Dict Text V)) where
  -- `orjson.dumps(payload) if payload else b""`
  body_bytes : Option (Dict Text V) → Bytes
  body_bytes none = []
  body_bytes (some []) = []
  body_bytes (some (e ∷ d)) = json.dumps (e ∷ d)

  encoded : Option ℕ → Option (Dict Text V) → Result BridgeError Bytes
  unfolding body_bytes
  encoded none payload = err key_error
  encoded (some type_byte) payload =
      let type_and_body = type_byte ∷ body_bytes payload in
      do
        length_prefix ← bridged (pack_length (length type_and_body))
        ok (length_prefix ++ type_and_body)

  unfoldable pub encode_tcp_frame : Text → Option (Dict Text V) → Result BridgeError Bytes
  unfolding encoded
  encode_tcp_frame msg_type_name payload = encoded (find_type msg_type_name) payload

  loaded : Option (Dict Text V) → Result BridgeError (Option (Dict Text V))
  loaded none = err decode_error
  loaded (some p) = ok (some p)

  load_body : Bytes → Result BridgeError (Option (Dict Text V))
  unfolding loaded
  load_body [] = ok none
  load_body (b ∷ bs) = loaded (json.loads (b ∷ bs))

  decoded_body : Bytes → Result BridgeError (Text × Option (Dict Text V))
  unfolding load_body
  decoded_body [] = err pack_error
  decoded_body (type_byte ∷ payload_bytes) = do
    payload ← load_body payload_bytes
    ok (type_name type_byte, payload)

  unfoldable pub read_tcp_frame :
      ℕ → Bytes → Result BridgeError ((Text × Option (Dict Text V)) × Bytes)
  unfolding decoded_body
  read_tcp_frame max_size stream = do
    (length_bytes, rest) ← bridged (readexactly length_prefix_size stream)
    declared_size ← bridged (unpack_length length_bytes)
    raise_if (ltb declared_size type_size) connection_error
    raise_if (ltb max_size declared_size) connection_error
    (body, rest') ← bridged (readexactly declared_size rest)
    frame ← decoded_body body
    ok (frame, rest')

  -- `dict(payload) if payload else {}`
  abbrev pub members_of : Option (Dict Text V) → Dict Text V
  members_of none = []
  members_of (some d) = d

  unfoldable pub frame_to_ws_json : Text → Option (Dict Text V) → Bytes
  frame_to_ws_json type_name payload =
      json.dumps (Dict.put (codes "type") (values.text type_name) (members_of payload))

  -- `data if data else None`
  abbrev pub nonempty : Dict Text V → Option (Dict Text V)
  nonempty [] = none
  nonempty (e ∷ d) = some (e ∷ d)

  framed : Result BridgeError Bytes → Result BridgeError (Option Bytes)
  framed (err e) = err e
  framed (ok frame) = ok (some frame)

  -- The value of `type` is a string, found in the table or not.
  known : Dict Text V → Text → Option ℕ → Result BridgeError (Option Bytes)
  unfolding framed
  known obj name none = ok none
  known obj name (some b) =
      framed (encode_tcp_frame name (nonempty (Dict.remove (codes "client_msg_id") obj)))

  named : Dict Text V → Option Text → Result BridgeError (Option Bytes)
  unfolding known
  named obj none = ok none
  named obj (some name) = known obj name (find_type name)

  -- The members without `type`, and its value
  typed : Dict Text V → Option V → Result BridgeError (Option Bytes)
  unfolding named
  typed obj none = ok none
  typed obj (some v) =
      if not (values.truthy v)
      then ok none
      else if not (values.hashable v)
      then err unhashable
      else named obj (values.as_text v)

  parsed : Bool → Option (Dict Text V) → Result BridgeError (Option Bytes)
  unfolding typed
  parsed other none = if other then err not_an_object else ok none
  parsed other (some obj) = typed (Dict.remove (codes "type") obj) (Dict.get (codes "type") obj)

  -- `is_json` says whether `orjson.loads` accepts a text that is no object.
  unfoldable pub ws_json_to_frame : (Bytes → Bool) → Bytes → Result BridgeError (Option Bytes)
  unfolding parsed
  ws_json_to_frame is_json raw_json = parsed (is_json raw_json) (json.loads raw_json)

-- A message of a browser: bytes, or JSON text
pub data WsMessage : Type 0 where
  binary : Bytes → WsMessage
  json_text : Bytes → WsMessage

-- How the task of one direction ends
pub data Ending : Type 0 where
  browser_closed : Ending
  backend_closed : Ending
  crashed : BridgeError → Ending
  out_of_fuel : Ending

module _ {V : Type 0} (values : Values V) (json : Orjson (Dict Text V)) where
  -- What the browser is told when the backend is gone
  abbrev pub bye : Bytes
  bye = json.dumps (
      (codes "type", values.text (codes "DISCONNECT"))
      ∷ (codes "reason", values.text (codes "backend_closed"))
      ∷ (codes "retryable", values.yes)
      ∷ [])

  -- The bytes written before, and the end; an exception of the translation ends the task.
  written : Result BridgeError (Option Bytes) → Bytes × Ending → Bytes × Ending
  written (err e) rest = ([], crashed e)
  written (ok none) rest = rest
  written (ok (some frame)) (bytes, ending) = (frame ++ bytes, ending)

  -- `_browser_to_tcp`: what is written to the backend for the messages of the browser until it closes
  unfoldable pub browser_to_tcp : (Bytes → Bool) → List WsMessage → Bytes × Ending
  unfolding written
  browser_to_tcp is_json [] = ([], browser_closed)
  browser_to_tcp is_json (binary raw ∷ msgs) =
      let (bytes, ending) = browser_to_tcp is_json msgs in (raw ++ bytes, ending)
  browser_to_tcp is_json (json_text raw ∷ msgs) =
      written (ws_json_to_frame values json is_json raw) (browser_to_tcp is_json msgs)

  -- The browser is told, if it is still there.
  told : ℕ → BridgeError → List Bytes × Ending
  told zero connection_error = ([], backend_closed)
  told (suc n) connection_error = (bye ∷ [], backend_closed)
  told sends e = ([], crashed e)

  sent_on :
      (ℕ → Bytes → List Bytes × Ending)
      → ℕ
      → Result BridgeError ((Text × Option (Dict Text V)) × Bytes)
      → List Bytes × Ending
  unfolding told
  sent_on next sends (err e) = told sends e
  sent_on next zero (ok (frame, rest)) = ([], browser_closed)
  sent_on next (suc n) (ok ((name, payload), rest)) =
      let (msgs, ending) = next n rest in (frame_to_ws_json values json name payload ∷ msgs, ending)

  -- `_tcp_to_browser` on fuel: what the browser gets for the stream of the backend, where the browser
  -- is gone after a number of messages
  unfoldable pub tcp_to_browser : ℕ → ℕ → Bytes → List Bytes × Ending
  unfolding sent_on
  tcp_to_browser zero sends stream = ([], out_of_fuel)
  tcp_to_browser (suc fuel) sends stream =
      sent_on (tcp_to_browser fuel) sends (read_tcp_frame values json default_max_frame_size stream)
