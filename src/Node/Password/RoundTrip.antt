-- ===== src/Node/Password/RoundTrip.antt =====
-- A stored password is accepted exactly when it derives the same key.
use clustertalk_githubaction.Prelude.{
  ℕ, ◌/◌, ◌%◌, ◌<◌, ◌≡◌, refl, ap, arith, false, some, [], ◌∷◌, ◌++◌, All, nat_beq, Text, ◌==◌,
  list_eq, nat_eq,
}
use clustertalk_githubaction.Protocol.Framing.{Bytes}
use clustertalk_githubaction.Node.Password.{
  hex_digit, hex, digit_value, is_ascii_space, fromhex, split_colon, hash_password, compared,
  verify_parts, verify_password,
}

-- Every byte is one.
abbrev pub IsBytes : Bytes → Type 0
IsBytes bs = All (λ b. b < 256) bs

digit_value-hex_digit : (n : ℕ) → n < 16 → digit_value (hex_digit n) ≡ some n
unfolding digit_value hex_digit
digit_value-hex_digit n lt = ground arith

is_ascii_space-hex_digit : (n : ℕ) → n < 16 → is_ascii_space (hex_digit n) ≡ false
unfolding is_ascii_space hex_digit
is_ascii_space-hex_digit n lt = ground arith

colon_ne : (n : ℕ) → n < 16 → nat_beq (hex_digit n) 58 ≡ false
unfolding hex_digit
colon_ne n lt = ground arith

fromhex-hex : (bs : Bytes) → IsBytes bs → fromhex (hex bs) ≡ some bs
unfolding fromhex hex
fromhex-hex [] h = refl
fromhex-hex (b ∷ bs) h =
    rw
      (
        is_ascii_space-hex_digit (b / 16) (omega (arith, h.0)),
        digit_value-hex_digit (b / 16) (omega (arith, h.0)),
        digit_value-hex_digit (b % 16) (omega arith),
        fromhex-hex bs h.1,
      )
      (ap (λ x. some (x ∷ bs)) (omega arith))

split_colon-hex :
    (bs : Bytes) (t : Text) → IsBytes bs → split_colon (hex bs ++ 58 ∷ t) ≡ some (hex bs, t)
unfolding split_colon hex
split_colon-hex [] t h = refl
split_colon-hex (b ∷ bs) t h = rw (
  colon_ne (b / 16) (omega (arith, h.0)),
  colon_ne (b % 16) (omega arith),
  split_colon-hex bs t h.1,
)

module _ (pbkdf2 : Text → Bytes → Bytes) where
  -- Verification of a password against what was stored for another compares the keys derived from
  -- the two with the stored salt, if salt and key are bytes.
  pub verify_password-hash_password :
      (salt : Bytes) (stored given : Text)
      → IsBytes salt
      → IsBytes (pbkdf2 stored salt)
      → verify_password pbkdf2 given (hash_password pbkdf2 salt stored)
        ≡ (pbkdf2 given salt == pbkdf2 stored salt)
  unfolding verify_password hash_password verify_parts compared
  verify_password-hash_password salt stored given hs hk = rw (
    split_colon-hex salt (hex (pbkdf2 stored salt)) hs,
    fromhex-hex salt hs,
    fromhex-hex (pbkdf2 stored salt) hk,
  )
