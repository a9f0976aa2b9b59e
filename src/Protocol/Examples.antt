-- ===== src/Protocol/Examples.antt =====
-- Concrete frames: a serialiser that puts a quote before the text, and streams of a few bytes.
use clustertalk_githubaction.Prelude.{
  ◌≡◌, refl, arith, Option, none, some, [], ◌∷◌, ◌++◌, take, Text, ok, err,
}
use clustertalk_githubaction.Protocol.MessageType.{byte_of, ack}
use clustertalk_githubaction.Protocol.Framing.{
  unpack_length, readexactly, Bytes, Orjson, body_of, encode_frame, read_raw_frame, read_frame,
  pack_length, connection_closed,
}
use clustertalk_githubaction.Protocol.Framing.RoundTrip.{read-encode}
use clustertalk_githubaction.Protocol.Framing.Rejects.{truncated-closed}

abbrev toy_loads : Bytes → Option Text
toy_loads [] = none
toy_loads (b ∷ bs) = some bs

abbrev pub toy_json : Orjson Text
toy_json = record {
  dumps = λ p. 34 ∷ p;
  loads = toy_loads;
  loads-dumps = λ p. refl;
  dumps-pos = λ p. omega arith;
}

-- The frame of an ACK with the payload 7 8
abbrev hi_frame : Bytes
hi_frame = 0 ∷ 0 ∷ 0 ∷ 4 ∷ 6 ∷ 34 ∷ 7 ∷ 8 ∷ []

hi_encoded : encode_frame toy_json ack (some (7 ∷ 8 ∷ [])) ≡ ok hi_frame
unfolding encode_frame pack_length body_of byte_of
hi_encoded = refl

hi_read : read_raw_frame 16 (hi_frame ++ (9 ∷ [])) ≡ ok (hi_frame, 9 ∷ [])
unfolding read_raw_frame readexactly unpack_length
hi_read = refl

read-encode_example :
    (frame : Bytes) × (encode_frame toy_json ack (some (7 ∷ 8 ∷ [])) ≡ ok frame)
    × (read_frame toy_json 16 (frame ++ (9 ∷ [])) ≡ ok ((ack, some (7 ∷ 8 ∷ [])), 9 ∷ []))
unfolding body_of
read-encode_example =
    read-encode toy_json 16 (omega arith) ack (some (7 ∷ 8 ∷ [])) (9 ∷ []) (omega arith)

truncated-closed_example : read_raw_frame 16 (take 6 hi_frame) ≡ err connection_closed
unfolding body_of
truncated-closed_example =
    truncated-closed toy_json 16 (omega arith) ack (some (7 ∷ 8 ∷ [])) hi_frame 6 hi_encoded
      (omega arith) (omega arith)
