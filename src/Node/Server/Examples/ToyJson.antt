-- ===== src/Node/Server/Examples/ToyJson.antt =====
-- A serialiser for what the node stores.
use clustertalk_githubaction.Protocol.Framing.{Orjson, Bytes}
use clustertalk_githubaction.Prelude.{
  zero, suc, drop-append_length, length, take-append_length, [], ℕ, ◌<◌, ◌∷◌, ◌++◌, ◌≡◌, Option,
  none, some, refl, arith, nat_eq, list_eq, Text, take, drop,
}
use clustertalk_githubaction.Node.Server.{Payload, chat, inbound}

-- An optional number as a tag and the number
abbrev tag : Option ℕ → ℕ
tag none = 0
tag (some n) = 1

abbrev number : Option ℕ → ℕ
number none = 0
number (some n) = n

abbrev untag : ℕ → ℕ → Option ℕ
untag zero n = none
untag (suc t) n = some n

untag-tag : (o : Option ℕ) → untag (tag o) (number o) ≡ o
untag-tag none = refl
untag-tag (some n) = refl

abbrev text_bytes : Option Text → Bytes
text_bytes none = []
text_bytes (some t) = 1 ∷ t

abbrev text_from : Bytes → Option Text
text_from [] = none
text_from (b ∷ t) = some t

text_from-bytes : (o : Option Text) → text_from (text_bytes o) ≡ o
text_from-bytes none = refl
text_from-bytes (some t) = refl

abbrev pub payload_bytes : Payload → Bytes
payload_bytes (chat a b c at) = 0 ∷ tag at ∷ number at ∷ length a ∷ length b ∷ a ++ (b ++ c)
payload_bytes (inbound seq text at) = 1 ∷ seq ∷ tag at ∷ number at ∷ text_bytes text

-- A chat message from the lengths of its first two texts and the three together
abbrev chat_from : ℕ → ℕ → Text → Option ℕ → Payload
chat_from n m s at = chat (take n s) (take m (drop n s)) (drop m (drop n s)) at

abbrev pub payload_from : Bytes → Option Payload
payload_from (zero ∷ t ∷ v ∷ n ∷ m ∷ s) = some (chat_from n m s (untag t v))
payload_from (suc zero ∷ seq ∷ t ∷ v ∷ s) = some (inbound seq (text_from s) (untag t v))
payload_from _ = none

pub payload_from-bytes : (p : Payload) → payload_from (payload_bytes p) ≡ some p
payload_from-bytes (chat a b c at) = rw (
  untag-tag at,
  take-append_length a (b ++ c),
  drop-append_length a (b ++ c),
  take-append_length b c,
  drop-append_length b c,
)
payload_from-bytes (inbound seq text at) = rw (untag-tag at, text_from-bytes text)

pub payload_bytes-pos : (p : Payload) → 0 < length (payload_bytes p)
payload_bytes-pos (chat a b c at) = omega arith
payload_bytes-pos (inbound seq text at) = omega arith

abbrev pub toy_payloads : Orjson Payload
toy_payloads = record {
  dumps = payload_bytes;
  loads = payload_from;
  loads-dumps = payload_from-bytes;
  dumps-pos = payload_bytes-pos;
}
