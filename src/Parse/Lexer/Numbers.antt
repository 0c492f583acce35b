-- ===== src/Parse/Lexer/Numbers.antt =====
-- The numbers that the lexer reads, against their decimal value.
use mdsort.Base.{
  ℕ, ◌+◌, ◌-◌, ◌*◌, ◌^◌, ◌≤◌, ◌<◌, true, false, [], ◌∷◌, ◌≡◌, refl, arith, Bytes, leb,
  if◌then◌else◌, is_digit, Bool-cases, inl, inr,
}
use mdsort.Interpolate.{digits_value}
use mdsort.Parse.Lexer.{add_digit, lex_number}

digits_value-grows : (k : ℕ) (s : Bytes) → k ≤ (digits_value k s).0
unfolding digits_value
digits_value-grows k [] = omega arith
digits_value-grows k (c ∷ s) = elim (Bool-cases (is_digit c)) [
  | inl e ↦
      rw (digits_value, e) (let h = digits_value-grows (k * 10 + (c - b'0')) s in omega (arith, h))
  | inr e ↦ rw (digits_value, e) (omega arith)
]

-- Behind an overflow the digits are skipped.
lex_number-skips : (k n : ℕ) (s : Bytes) → lex_number true n s ≡ (0, n, (digits_value k s).1)
unfolding lex_number digits_value
lex_number-skips k n [] = refl
lex_number-skips k n (c ∷ s) = elim (Bool-cases (is_digit c)) [
  | inl e ↦ rw (lex_number, digits_value, e) (lex_number-skips (k * 10 + (c - b'0')) n s)
  | inr e ↦ rw (lex_number, digits_value, e) refl
]

-- The errors, the number if it fits, and what follows, for a value and what follows it.
abbrev pub NumberOf : ℕ × Bytes → ℕ × ℕ × Bytes → Type 0
NumberOf (n, rest) (errors, number, s) =
    (errors ≡ (if leb (2 ^ 32) n then 1 else 0)) × (n < 2 ^ 32 → number ≡ n) × (s ≡ rest)

add_digit_lem :
    (k c : ℕ)
    → k < 2 ^ 32
    → ((add_digit k c).0 ≡ leb (2 ^ 32) (k * 10 + (c - b'0')))
      × ((add_digit k c).0 ≡ false → (add_digit k c).1 ≡ k * 10 + (c - b'0'))
unfolding add_digit
add_digit_lem k c h = ground (arith, h)

overflowed :
    (n : ℕ) (v : ℕ × Bytes) (r : ℕ × ℕ × Bytes)
    → 2 ^ 32 ≤ v.0
    → r ≡ (0, n, v.1)
    → NumberOf v (1 + r.0, r.1, r.2)
overflowed n (v, rest) (e, m, s) h q = ground (arith, h, q)

fitted : (v : ℕ × Bytes) (r : ℕ × ℕ × Bytes) → NumberOf v r → NumberOf v (0 + r.0, r.1, r.2)
fitted (n, rest) (e, m, s) h = ground (arith, h)

lex_number-from :
    (k : ℕ) (s : Bytes) → k < 2 ^ 32 → NumberOf (digits_value k s) (lex_number false k s)
unfolding lex_number digits_value
lex_number-from k [] h = ground (arith, h)
lex_number-from k (c ∷ s) h = elim (Bool-cases (is_digit c)) [
  | inr e ↦ rw (lex_number, digits_value, e) (ground (arith, h))
  | inl e ↦
      rw (lex_number, digits_value, e)
        (let (over, value) = add_digit_lem k c h in
          elim (Bool-cases (add_digit k c).0) [
            | inr f ↦
                rw (f, value f)
                  (fitted (digits_value (k * 10 + (c - b'0')) s) _
                    (lex_number-from (k * 10 + (c - b'0')) s (ground (arith, over, f))))
            | inl f ↦ rw f (
                let g = digits_value-grows (k * 10 + (c - b'0')) s in
                overflowed (add_digit k c).1 (digits_value (k * 10 + (c - b'0')) s) _
                  (ground (arith, over, f, g))
                  (lex_number-skips (k * 10 + (c - b'0')) (add_digit k c).1 s))
          ])
]

-- Of a row of digits with any number of them the lexer reads the decimal value if it is below 2 ^ 32,
-- with no error; a greater one is one error; what follows the digits is left in either case.
pub lex_number-NumberOf : (s : Bytes) → NumberOf (digits_value 0 s) (lex_number false 0 s)
lex_number-NumberOf s = lex_number-from 0 s (omega arith)
