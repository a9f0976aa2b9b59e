-- ===== src/Ingress/Address/RoundTrip.antt =====
-- A stored address is read back as the host and the port that were written.
use clustertalk_githubaction.Prelude.{
  ℕ, zero, suc, ◌+◌, ◌/◌, ◌%◌, ◌<◌, ◌≡◌, refl, arith, ap, ◌∙◌, true, none, some, [], ◌∷◌, ◌++◌, ltb,
  Text, Bool-cases, inl, inr,
}
use clustertalk_githubaction.Ingress.Address.{
  decimal_onto, decimal, value_from, all_digits, is_digit, colon, rpartition, address_str,
  parse_address,
}

value-decimal_onto :
    (fuel n : ℕ) (acc : Text) → n < fuel → value_from 0 (decimal_onto fuel n acc) ≡ value_from n acc
unfolding decimal_onto
value-decimal_onto zero n acc h = absurd (omega arith)
value-decimal_onto (suc fuel) n acc h = elim (Bool-cases (ltb n 10)) [
  | inl one ↦ rw one (unfold value_from in ap (λ k. value_from k acc) (omega arith))
  | inr more ↦ rw more (
      value-decimal_onto fuel (n / 10) ((48 + n % 10) ∷ acc) (ground arith)
      ∙ (unfold value_from in ap (λ k. value_from k acc) (omega arith)))
]

digits-decimal_onto :
    (fuel n : ℕ) (acc : Text)
    → n < fuel
    → all_digits acc ≡ true
    → is_digit (decimal_onto fuel n acc) ≡ true
unfolding decimal_onto
digits-decimal_onto zero n acc h d = absurd (omega arith)
digits-decimal_onto (suc fuel) n acc h d = elim (Bool-cases (ltb n 10)) [
  | inl one ↦ rw one (unfold is_digit in ground arith)
  | inr more ↦ rw more (
      digits-decimal_onto fuel (n / 10) ((48 + n % 10) ∷ acc) (ground arith)
        (unfold all_digits in ground arith))
]

-- Digits hold no colon.
rpartition-digits : (s : Text) → all_digits s ≡ true → rpartition s ≡ none
unfolding rpartition all_digits
rpartition-digits [] h = refl
rpartition-digits (c ∷ s) h = ground (arith, rpartition-digits s)

is_digit-all : (s : Text) → is_digit s ≡ true → all_digits s ≡ true
unfolding is_digit
is_digit-all [] h = cc
is_digit-all (c ∷ s) h = h

rpartition-address :
    (host s : Text) → all_digits s ≡ true → rpartition (host ++ colon ∷ s) ≡ some (host, s)
unfolding rpartition
rpartition-address [] s h = rw (rpartition-digits s h)
rpartition-address (c ∷ host) s h = rw (rpartition-address host s h)

parse-digits :
    (c : ℕ) (host s : Text)
    → is_digit s ≡ true
    → parse_address (c ∷ host ++ colon ∷ s) ≡ some (c ∷ host, value_from 0 s)
unfolding parse_address
parse-digits c host s h =
    rw (rpartition-address (c ∷ host) s (is_digit-all s h)) (ground (arith, h))

decimal-digits : (n : ℕ) → is_digit (decimal n) ≡ true
unfolding decimal
decimal-digits n = digits-decimal_onto (suc n) n [] (omega arith) (unfold all_digits in refl)

value-decimal : (n : ℕ) → value_from 0 (decimal n) ≡ n
unfolding decimal
value-decimal n = value-decimal_onto (suc n) n [] (omega arith) ∙ (unfold value_from in refl)

-- Whatever the port, and whatever colons the host has in it, the stored text of an address with a
-- host that is not empty is read back as that host and port.
pub parse-address_str :
    (c : ℕ) (host : Text) (port : ℕ)
    → parse_address (address_str (c ∷ host) port) ≡ some (c ∷ host, port)
unfolding address_str
parse-address_str c host port =
    parse-digits c host (decimal port) (decimal-digits port)
    ∙ ap (λ v. some (c ∷ host, v)) (value-decimal port)
