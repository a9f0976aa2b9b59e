-- ===== src/Ingress/Address.antt =====
-- The text "host:port" of ingress/lb.py: how it is written and how a stored one is read back.
pub mod RoundTrip
use clustertalk_githubaction.Prelude.{
  ℕ, zero, suc, ◌+◌, ◌-◌, ◌*◌, ◌/◌, ◌%◌, Bool, true, false, ◌&&◌, Option, none, some, List, [], ◌∷◌,
  ◌++◌, ltb, leb, nat_beq, if◌then◌else◌, Text,
}

-- `str(n)`: the digits in front of `acc`; one digit for each unit of fuel is enough
unfoldable pub decimal_onto : ℕ → ℕ → Text → Text
decimal_onto zero n acc = acc
decimal_onto (suc fuel) n acc =
    let rest = decimal_onto fuel (n / 10) ((48 + n % 10) ∷ acc) in
    if ltb n 10 then (48 + n) ∷ acc else rest

unfoldable pub decimal : ℕ → Text
unfolding decimal_onto
decimal n = decimal_onto (suc n) n []

-- `int(s)` on ASCII digits
unfoldable pub value_from : ℕ → Text → ℕ
value_from acc [] = acc
value_from acc (c ∷ s) = value_from (acc * 10 + (c - 48)) s

unfoldable pub all_digits : Text → Bool
all_digits [] = true
all_digits (c ∷ s) = (leb 48 c && leb c 57) && all_digits s

-- `s.isdigit()`, on ASCII
unfoldable pub is_digit : Text → Bool
unfolding all_digits
is_digit [] = false
is_digit (c ∷ s) = all_digits (c ∷ s)

abbrev pub colon : ℕ
colon = 58

-- `s.rpartition(":")`, or `none` where there is no colon
unfoldable pub rpartition : Text → Option (Text × Text)
rpartition [] = none
rpartition (c ∷ s) = elim (rpartition s) [
  | some (h, t) ↦ some (c ∷ h, t)
  | none ↦ if nat_beq c colon then some ([], s) else none
]

-- `address_str`
unfoldable pub address_str : Text → ℕ → Text
unfolding decimal
address_str host port = host ++ colon ∷ decimal port

checked : Option (Text × Text) → Option (Text × ℕ)
checked none = none
checked (some ([], t)) = none
checked (some (c ∷ h, t)) = if is_digit t then some (c ∷ h, value_from 0 t) else none

-- The parse of a stored value in `_redis_get_sticky`
unfoldable pub parse_address : Text → Option (Text × ℕ)
unfolding checked rpartition is_digit value_from
parse_address value = checked (rpartition value)
