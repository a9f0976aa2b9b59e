-- ===== src/Ingress/WsBridge/Examples.antt =====
-- Objects of texts and numbers, a serialiser for them, and a few messages.
use clustertalk_githubaction.Ingress.WsBridge.Codec.{
  read_frame-ws_json_to_frame, encode_tcp_frame-encode_frame,
}
use clustertalk_githubaction.Ingress.WsBridge.Stream.{
  tcp_to_browser-relayed_all, relayed_all, encode_all,
}
use clustertalk_githubaction.Ingress.WsBridge.{
  length, backend_closed, ws_json_to_frame, tcp_to_browser, encode_tcp_frame, bridged, Values,
}
use clustertalk_githubaction.Protocol.Framing.{read_frame, encode_frame, body_of, Orjson, Bytes}
use clustertalk_githubaction.Prelude.{
  [], ℕ, ◌∷◌, ◌++◌, ◌≡◌, Option, Bool, List, ok, true, none, some, refl, arith, zero, suc, nat_eq,
  list_eq, Text, codes, take, drop, take-append_length, drop-append_length, false,
}
use clustertalk_githubaction.Prelude.Dict
use clustertalk_githubaction.Prelude.Dict.{Dict}
use clustertalk_githubaction.Protocol.MessageType.{MessageType, hello, ack}

data ToyValue : Type 0 where
  str : Text → ToyValue
  num : ℕ → ToyValue

abbrev text_of : ToyValue → Option Text
text_of (str t) = some t
text_of (num n) = none

abbrev is_truthy : ToyValue → Bool
is_truthy (str []) = false
is_truthy (str (c ∷ t)) = true
is_truthy (num zero) = false
is_truthy (num (suc n)) = true

abbrev toy_values : Values ToyValue
toy_values = record {
  text = str;
  yes = num 1;
  as_text = text_of;
  truthy = is_truthy;
  hashable = λ v. true;
  as_text-text = λ t. refl;
  truthy-text = λ c t. refl;
  hashable-text = λ t. refl;
}

-- The members, each with the lengths of its texts first
abbrev entries : Dict Text ToyValue → Bytes
entries [] = []
entries ((k, str t) ∷ d) = 0 ∷ length k ∷ length t ∷ k ++ (t ++ entries d)
entries ((k, num n) ∷ d) = 1 ∷ length k ∷ n ∷ k ++ entries d

abbrev add_member : Text → ToyValue → Option (Dict Text ToyValue) → Option (Dict Text ToyValue)
add_member k v none = none
add_member k v (some d) = some ((k, v) ∷ d)

abbrev parse : ℕ → Bytes → Option (Dict Text ToyValue)
parse zero s = some []
parse (suc left) (zero ∷ n ∷ m ∷ s) =
    add_member (take n s) (str (take m (drop n s))) (parse left (drop m (drop n s)))
parse (suc left) (suc tag ∷ n ∷ x ∷ s) = add_member (take n s) (num x) (parse left (drop n s))
parse (suc left) _ = none

parse-entries : (d : Dict Text ToyValue) → parse (length d) (entries d) ≡ some d
parse-entries [] = refl
parse-entries ((k, str t) ∷ d) = rw (
  take-append_length k (t ++ entries d),
  drop-append_length k (t ++ entries d),
  take-append_length t (entries d),
  drop-append_length t (entries d),
  parse-entries d,
)
parse-entries ((k, num n) ∷ d) =
    rw (take-append_length k (entries d), drop-append_length k (entries d), parse-entries d)

abbrev parse_object : Bytes → Option (Dict Text ToyValue)
parse_object [] = none
parse_object (n ∷ s) = parse n s

abbrev toy_objects : Orjson (Dict Text ToyValue)
toy_objects = record {
  dumps = λ d. length d ∷ entries d;
  loads = parse_object;
  loads-dumps = parse-entries;
  dumps-pos = λ d. omega arith;
}

abbrev acked : Option (Dict Text ToyValue)
acked = some ((codes "seq", num 3) ∷ [])

encode_tcp_frame-encode_frame_example :
    encode_tcp_frame toy_values toy_objects (codes "ACK") acked
    ≡ bridged (encode_frame toy_objects ack acked)
encode_tcp_frame-encode_frame_example =
    encode_tcp_frame-encode_frame toy_values toy_objects ack acked

abbrev typed_ack : Dict Text ToyValue
typed_ack =
    (codes "seq", num 3) ∷ (codes "type", str (codes "ACK")) ∷ (codes "client_msg_id", num 8) ∷ []

read_frame-ws_json_to_frame_example :
    (frame : Bytes) × (ws_json_to_frame toy_values toy_objects
        (λ s. false)
        (toy_objects.dumps typed_ack)
      ≡ ok (some frame))
    × (read_frame toy_objects 100 (frame ++ (9 ∷ [])) ≡ ok ((ack, acked), 9 ∷ []))
unfolding Dict.get Dict.remove
read_frame-ws_json_to_frame_example =
    read_frame-ws_json_to_frame toy_values toy_objects (λ s. false) 100 ack typed_ack (9 ∷ [])
      (omega arith) refl (unfold body_of in omega arith)

abbrev two_frames : List (MessageType × Option (Dict Text ToyValue))
two_frames = (hello, none) ∷ (ack, acked) ∷ []

tcp_to_browser-relayed_all_example :
    (stream : Bytes) × (encode_all toy_values toy_objects two_frames ≡ ok stream)
    × (tcp_to_browser toy_values toy_objects 3 3 stream
        ≡ (relayed_all toy_values toy_objects two_frames, backend_closed))
tcp_to_browser-relayed_all_example =
    tcp_to_browser-relayed_all toy_values toy_objects two_frames 3 3
      (unfold body_of in (omega arith, (omega arith, tt))) (omega arith) (omega arith)
