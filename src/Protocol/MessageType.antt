-- ===== src/Protocol/MessageType.antt =====
-- `MessageType` of protocol/framing.py: the one-byte type of a frame.
use clustertalk_githubaction.Prelude.{
  ℕ, ◌≡◌, refl, arith, ◌<◌, ◌==◌, nat_eq, Option, none, some, List, [], ◌∷◌, if◌then◌else◌,
}

pub data MessageType : Type 0 where
  hello hello_ack ping pong message ack : MessageType
  error node_announce node_status session_bind disconnect join_room : MessageType
  room_joined peer_hello relay session_query session_state register : MessageType
  register_ack login login_ack get_rooms rooms_list : MessageType

-- `int(msg_type)`
unfoldable pub byte_of : MessageType → ℕ
byte_of hello = 0x01
byte_of hello_ack = 0x02
byte_of ping = 0x03
byte_of pong = 0x04
byte_of message = 0x05
byte_of ack = 0x06
byte_of error = 0x07
byte_of node_announce = 0x08
byte_of node_status = 0x09
byte_of session_bind = 0x0a
byte_of disconnect = 0x0b
byte_of join_room = 0x0c
byte_of room_joined = 0x0d
byte_of peer_hello = 0x0e
byte_of relay = 0x0f
byte_of session_query = 0x10
byte_of session_state = 0x11
byte_of register = 0x12
byte_of register_ack = 0x13
byte_of login = 0x14
byte_of login_ack = 0x15
byte_of get_rooms = 0x16
byte_of rooms_list = 0x17

abbrev members : List MessageType
members =
    hello ∷ hello_ack ∷ ping ∷ pong ∷ message ∷ ack ∷ error ∷ node_announce ∷ node_status
    ∷ session_bind ∷ disconnect ∷ join_room ∷ room_joined ∷ peer_hello ∷ relay ∷ session_query
    ∷ session_state ∷ register ∷ register_ack ∷ login ∷ login_ack ∷ get_rooms ∷ rooms_list ∷ []

find_member : List MessageType → ℕ → Option MessageType
find_member [] b = none
find_member (t ∷ ts) b = if byte_of t == b then some t else find_member ts b

-- `MessageType(b)`, where `none` is the ValueError.
unfoldable pub of_byte : ℕ → Option MessageType
unfolding find_member byte_of
of_byte b = find_member members b

pub of_byte-byte_of : (t : MessageType) → of_byte (byte_of t) ≡ some t
unfolding of_byte
of_byte-byte_of hello = refl
of_byte-byte_of _ = refl

pub byte_of-lt : (t : MessageType) → byte_of t < 256
unfolding byte_of
byte_of-lt hello = omega arith
byte_of-lt _ = omega arith
