-- ===== src/Node/Password.antt =====
-- Password storage of node/server.py (`_hash_password`, `_verify_password`): "salt_hex:hash_hex".
-- PBKDF2 is a parameter, from the password and the salt to the derived key.
pub mod RoundTrip
use clustertalk_githubaction.Prelude.{
  ℕ, ◌+◌, ◌-◌, ◌*◌, ◌/◌, ◌%◌, Bool, true, false, ◌&&◌, ◌||◌, Option, none, some, List, [], ◌∷◌,
  ◌++◌, leb, nat_beq, if◌then◌else◌, Text, ◌==◌, list_eq, nat_eq, ltb,
}
use clustertalk_githubaction.Protocol.Framing.{Bytes}

-- A hexadecimal digit
unfoldable pub hex_digit : ℕ → ℕ
hex_digit n = if ltb n 10 then 48 + n else 87 + n

-- `bytes.hex()`
unfoldable pub hex : Bytes → Text
unfolding hex_digit
hex [] = []
hex (b ∷ bs) = hex_digit (b / 16) ∷ hex_digit (b % 16) ∷ hex bs

unfoldable pub digit_value : ℕ → Option ℕ
digit_value c =
    if leb 48 c && leb c 57
    then some (c - 48)
    else if leb 97 c && leb c 102
    then some (c - 87)
    else if leb 65 c && leb c 70
    then some (c - 55)
    else none

unfoldable pub is_ascii_space : ℕ → Bool
is_ascii_space c = (leb 9 c && leb c 13) || nat_beq c 32

byte_of_digits : Option ℕ → Option ℕ → Option Bytes → Option Bytes
byte_of_digits (some h) (some l) (some rest) = some ((h * 16 + l) ∷ rest)
byte_of_digits _ _ _ = none

-- `bytes.fromhex()`, where `none` is its ValueError: pairs of digits, with spaces between pairs
unfoldable pub fromhex : Text → Option Bytes
unfolding digit_value is_ascii_space byte_of_digits
fromhex [] = some []
fromhex (c ∷ []) = if is_ascii_space c then some [] else none
fromhex (c ∷ d ∷ s) =
    let spaced = fromhex (d ∷ s) in
    let paired = byte_of_digits (digit_value c) (digit_value d) (fromhex s) in
    if is_ascii_space c then spaced else paired

-- `s.split(":", 1)` with two parts, or `none` where there is no colon
unfoldable pub split_colon : Text → Option (Text × Text)
split_colon [] = none
split_colon (c ∷ s) =
    if nat_beq c 58
    then some ([], s)
    else elim (split_colon s) [ none ↦ none | some (a, b) ↦ some (c ∷ a, b) ]

module _ (pbkdf2 : Text → Bytes → Bytes) where
  -- `_hash_password`, with the random salt as an argument
  unfoldable pub hash_password : Bytes → Text → Text
  unfolding hex
  hash_password salt plaintext = hex salt ++ 58 ∷ hex (pbkdf2 plaintext salt)

  compared : Text → Option Bytes → Option Bytes → Bool
  compared plaintext (some salt) (some expected) = pbkdf2 plaintext salt == expected
  compared plaintext _ _ = false

  verify_parts : Text → Option (Text × Text) → Bool
  unfolding compared fromhex
  verify_parts plaintext none = false
  verify_parts plaintext (some (salt_hex, dk_hex)) =
      compared plaintext (fromhex salt_hex) (fromhex dk_hex)

  -- `_verify_password`
  unfoldable pub verify_password : Text → Text → Bool
  unfolding verify_parts split_colon
  verify_password plaintext stored = verify_parts plaintext (split_colon stored)
