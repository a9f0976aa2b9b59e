-- ===== src/Ingress/WsBridge/Codec.antt =====
-- The codec of the bridge against the codec of the nodes.
use clustertalk_githubaction.Protocol.Framing.RoundTrip.{
  readexactly_of_length, read-encode, ltb_of_le, encode-layout,
}
use clustertalk_githubaction.Ingress.WsBridge.{
  named, parsed, framed, known, decoded_body, typed, loaded, load_body, ws_json_to_frame,
  read_tcp_frame, members_of, frame_to_ws_json, body_bytes, ltb, length, encoded, type_to_name,
  type_name, nonempty, find_type, encode_tcp_frame, bridged, Values,
}
use clustertalk_githubaction.Protocol.Framing.{
  read_frame, pack_length, Bytes, encode_frame, body_of, Orjson,
}
use clustertalk_githubaction.Prelude.{
  true, append_assoc, suc, ◌≤◌, ◌<◌, ap, Bool, arith, ◌^◌, ℕ, ◌++◌, inr, inl, Bool-cases, ok, ◌>>=◌,
  [], ◌∷◌, ◌≡◌, Option, none, some, refl, nat_eq, list_eq, Text, codes,
}
use clustertalk_githubaction.Prelude.Dict
use clustertalk_githubaction.Prelude.Dict.{Dict}
use clustertalk_githubaction.Protocol.MessageType.{
  MessageType, byte_of, hello, hello_ack, ping, pong, message, ack, error, node_announce,
  node_status, session_bind, disconnect, join_room, room_joined, peer_hello, relay, session_query,
  session_state, register, register_ack, login, login_ack, get_rooms, rooms_list,
}

-- The name of a type in the enum of the nodes
abbrev pub name_of : MessageType → Text
name_of hello = codes "HELLO"
name_of hello_ack = codes "HELLO_ACK"
name_of ping = codes "PING"
name_of pong = codes "PONG"
name_of message = codes "MESSAGE"
name_of ack = codes "ACK"
name_of error = codes "ERROR"
name_of node_announce = codes "NODE_ANNOUNCE"
name_of node_status = codes "NODE_STATUS"
name_of session_bind = codes "SESSION_BIND"
name_of disconnect = codes "DISCONNECT"
name_of join_room = codes "JOIN_ROOM"
name_of room_joined = codes "ROOM_JOINED"
name_of peer_hello = codes "PEER_HELLO"
name_of relay = codes "RELAY"
name_of session_query = codes "SESSION_QUERY"
name_of session_state = codes "SESSION_STATE"
name_of register = codes "REGISTER"
name_of register_ack = codes "REGISTER_ACK"
name_of login = codes "LOGIN"
name_of login_ack = codes "LOGIN_ACK"
name_of get_rooms = codes "GET_ROOMS"
name_of rooms_list = codes "ROOMS_LIST"

find_type-name_of : (t : MessageType) → find_type (name_of t) ≡ some (byte_of t)
unfolding find_type byte_of Dict.get
find_type-name_of hello = refl
find_type-name_of _ = refl

type_name-byte_of : (t : MessageType) → type_name (byte_of t) ≡ name_of t
unfolding type_name type_to_name byte_of Dict.get Dict.put
type_name-byte_of hello = refl
type_name-byte_of _ = refl

-- Packing a length before a body is the same in either error type.
bridged-packed :
    (n : ℕ) (body : Bytes)
    → (bridged (pack_length n) >>= λ b. ok (b ++ body))
      ≡ bridged (pack_length n >>= λ b. ok (b ++ body))
unfolding pack_length
bridged-packed n body = elim (Bool-cases (ltb n (2 ^ 32))) [
  | inl fits ↦ rw fits
  | inr long ↦ rw long
]

module _ {V : Type 0} (values : Values V) (json : Orjson (Dict Text V)) where
  -- What the bridge sends as a payload: an empty object is sent as none.
  abbrev pub carried : Option (Dict Text V) → Option (Dict Text V)
  carried none = none
  carried (some d) = nonempty values json d

  body_bytes-carried :
      (p : Option (Dict Text V)) → body_bytes values json p ≡ body_of json (carried p)
  unfolding body_bytes body_of
  body_bytes-carried none = refl
  body_bytes-carried (some []) = refl
  body_bytes-carried (some (e ∷ d)) = refl

  -- The bridge encodes a frame of any type by its name exactly as a node encodes it by its type,
  -- errors included, but that it sends an empty object as no payload.
  pub encode_tcp_frame-encode_frame :
      (t : MessageType) (p : Option (Dict Text V))
      → encode_tcp_frame values json (name_of t) p ≡ bridged (encode_frame json t (carried p))
  unfolding encode_tcp_frame encoded encode_frame
  encode_tcp_frame-encode_frame t p =
      rw (find_type-name_of t, body_bytes-carried p)
        (bridged-packed (length (byte_of t ∷ body_of json (carried p)))
          (byte_of t ∷ body_of json (carried p)))

  load_body-dumped :
      (d : Dict Text V) (bs : Bytes) → json.dumps d ≡ bs → load_body values json bs ≡ ok (some d)
  unfolding load_body loaded
  load_body-dumped d [] e = absurd (omega (arith, json.dumps-pos d, ap (length {A = ℕ}) e))
  load_body-dumped d (b ∷ bs) e = rw (← e, json.loads-dumps d)

  load_body-body_of : (p : Option (Dict Text V)) → load_body values json (body_of json p) ≡ ok p
  unfolding load_body body_of
  load_body-body_of none = refl
  load_body-body_of (some d) = load_body-dumped d (json.dumps d) refl

  decoded_body-body_of :
      (t : MessageType) (p : Option (Dict Text V))
      → decoded_body values json (byte_of t ∷ body_of json p) ≡ ok (name_of t, p)
  unfolding decoded_body
  decoded_body-body_of t p = rw (type_name-byte_of t, load_body-body_of p)

  -- A frame of any type that a node encodes, within the limit, is read by the bridge with the name of
  -- the type and the payload, and what follows it stays in the stream; the JSON that the browser gets
  -- is the payload with the name under `type`.
  pub read_tcp_frame-encode_frame :
      (max : ℕ) (t : MessageType) (p : Option (Dict Text V)) (rest : Bytes)
      → max < 2 ^ 32
      → suc (length (body_of json p)) ≤ max
      → (frame : Bytes) × (encode_frame json t p ≡ ok frame)
        × (read_tcp_frame values json max (frame ++ rest) ≡ ok ((name_of t, p), rest))
        × (json.loads (frame_to_ws_json values json (name_of t) p)
            ≡ some (Dict.put (codes "type") (values.text (name_of t)) (members_of values json p)))
  unfolding read_tcp_frame frame_to_ws_json
  read_tcp_frame-encode_frame max t p rest bounded fits =
      let (b, packed, len, unpacked) = encode-layout json t p (omega arith) in
      let body = byte_of t ∷ body_of json p in
      (
        b ++ body,
        packed,
        rw (
          append_assoc,
          readexactly_of_length 4 b (body ++ rest) len,
          unpacked,
          ltb_of_le (length body) 1 (omega arith),
          ltb_of_le max (length body) fits,
          readexactly_of_length (length body) body rest refl,
          decoded_body-body_of t p,
        ),
        json.loads-dumps _,
      )

  -- What is left of a browser's message for the node
  abbrev pub payload_of : Dict Text V → Option (Dict Text V)
  payload_of obj =
      nonempty values json (Dict.remove (codes "client_msg_id") (Dict.remove (codes "type") obj))

  carried-payload_of : (d : Dict Text V) → carried (nonempty values json d) ≡ nonempty values json d
  carried-payload_of [] = refl
  carried-payload_of (e ∷ d) = refl

  truthy-name_of : (t : MessageType) → values.truthy (values.text (name_of t)) ≡ true
  truthy-name_of hello = values.truthy-text _ _
  truthy-name_of _ = values.truthy-text _ _

  -- A browser's message whose `type` names a type is encoded to a frame that a node reads with that
  -- type and the other members, less `client_msg_id`, as payload, or with none where none are left,
  -- if the frame is within the limit; what follows it stays in the stream.
  pub read_frame-ws_json_to_frame :
      (is_json : Bytes → Bool) (max : ℕ) (t : MessageType) (obj : Dict Text V) (rest : Bytes)
      → max < 2 ^ 32
      → Dict.get (codes "type") obj ≡ some (values.text (name_of t))
      → suc (length (body_of json (payload_of obj))) ≤ max
      → (frame : Bytes) × (ws_json_to_frame values json is_json (json.dumps obj) ≡ ok (some frame))
        × (read_frame json max (frame ++ rest) ≡ ok ((t, payload_of obj), rest))
  unfolding ws_json_to_frame parsed typed named known framed
  read_frame-ws_json_to_frame is_json max t obj rest bounded here fits =
      let (frame, encoding, reading) = read-encode json max bounded t (payload_of obj) rest fits in
      (
        frame,
        rw (
          json.loads-dumps obj,
          here,
          truthy-name_of t,
          values.hashable-text (name_of t),
          values.as_text-text (name_of t),
          find_type-name_of t,
          encode_tcp_frame-encode_frame t (payload_of obj),
          carried-payload_of (Dict.remove (codes "client_msg_id") (Dict.remove (codes "type") obj)),
          encoding,
        ),
        reading,
      )
