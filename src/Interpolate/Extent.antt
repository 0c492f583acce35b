-- ===== src/Interpolate/Extent.antt =====
-- How much of a string one back-reference or macro takes.
use mdsort.Base.{
  ℕ, ◌+◌, ◌-◌, ◌*◌, ◌≤◌, ◌<◌, Bool, true, false, not, ◌||◌, Option, some, [], ◌∷◌, ◌++◌, ◌≡◌, refl,
  subst, arith, Bytes, ◌==◌, ltb, length, Bool-cases, inl, inr, is_digit, is_space, skip_while,
  length-skip_while,
}
use mdsort.Macro.{MacroList, IsMacro, no_macro, unterminated, macro, ismacro, macro_name}
use mdsort.Match.{MatchList}
use mdsort.Interpolate.{
  done, backslash, isbackref, isbackref_tail, IsBackref, no_backref, bad_backref, backref,
  interpolate_at, int_max, strtoul, strtoul_digits, digits_value,
}

length-digits_value : (acc : ℕ) (s : Bytes) → length ((digits_value acc s).1) ≤ length s
unfolding digits_value
length-digits_value acc [] = omega arith
length-digits_value acc (c ∷ s) = ground (arith, length-digits_value (acc * 10 + (c - b'0')) s)

length-strtoul_digits :
    (whole : Bytes) (negative : Bool) (s : Bytes)
    → length s ≤ length whole
    → length ((strtoul_digits whole negative s).1) ≤ length whole
unfolding strtoul_digits
length-strtoul_digits whole negative s h = ground (arith, length-digits_value 0 s)

length-strtoul : (s : Bytes) → length ((strtoul s).1) ≤ length s
unfolding strtoul
length-strtoul s = go (skip_while is_space s) refl
  where
    go : (r : Bytes) → skip_while is_space s ≡ r → length ((strtoul s).1) ≤ length s
    go [] q = ground (arith, q)
    go (c ∷ r) q =
        let shorter = length-skip_while is_space s in
        ground (
          arith,
          q,
          shorter,
          length-strtoul_digits s true r,
          length-strtoul_digits s false r,
          length-strtoul_digits s false (c ∷ r),
        )

abbrev Within : ℕ → IsBackref → Type 0
Within total no_backref = Unit
Within total bad_backref = Unit
Within total (backref n mi si) = (2 ≤ n) × (n ≤ total)

isbackref_tail-Within :
    (total n : ℕ) (s : Bytes) → length s + 2 ≤ total → Within total (isbackref_tail total n s)
unfolding isbackref_tail
isbackref_tail-Within total n [] h = ground arith
isbackref_tail-Within total n (c ∷ s) h = ground (arith, length-strtoul s)

macro_name-extent :
    (i : ℕ) (name s : Bytes) (n : ℕ) (found : Bytes)
    → macro_name i name s ≡ macro n found
    → (i < n) × (n ≤ i + length s)
unfolding macro_name
macro_name-extent i name [] n found h = cc
macro_name-extent i name (c ∷ s) n found h =
    ground (arith, macro_name-extent (i + 1) (name ++ c ∷ []) s n found)

macro_extent :
    (s : Bytes) (n : ℕ) (name : Bytes) → ismacro s ≡ macro n name → (2 ≤ n) × (n ≤ length s)
unfolding ismacro
macro_extent [] n name h = cc
macro_extent (a ∷ []) n name h = cc
macro_extent (a ∷ b ∷ s) n name h = ground (arith, macro_name-extent 2 [] s n name)

skip_digit : (d : ℕ) (s : Bytes) → is_digit d ≡ true → skip_while is_space (d ∷ s) ≡ d ∷ s
unfolding is_digit is_space skip_while
skip_digit d s h = ground arith

-- A number that starts with a digit takes that digit.
length-strtoul-digit :
    (d : ℕ) (s : Bytes) → is_digit d ≡ true → length ((strtoul (d ∷ s)).1) ≤ length s
unfolding strtoul strtoul_digits digits_value is_digit is_space skip_while
length-strtoul-digit d s h = ground (arith, length-digits_value (0 * 10 + (d - b'0')) s)

second_holds : (a b : Bool) → (not a || not b) ≡ false → b ≡ true
second_holds a b h = ground arith

isbackref-Within : (s : Bytes) → Within (length s) (isbackref s)
unfolding isbackref
isbackref-Within [] = tt
isbackref-Within (b ∷ []) = tt
isbackref-Within (b ∷ d ∷ s) = elim (Bool-cases (not (b == backslash) || not (is_digit d))) [
  | inl e ↦ rw e tt
  | inr e ↦ rw e (elim (Bool-cases (ltb int_max ((strtoul (d ∷ s)).0))) [
    | inl f ↦ rw f tt
    | inr f ↦ rw f (
        isbackref_tail-Within (length (b ∷ d ∷ s)) ((strtoul (d ∷ s)).0) ((strtoul (d ∷ s)).1)
          (omega (arith, length-strtoul-digit d s (second_holds _ _ e))))
  ])
]

-- What a back-reference or a macro takes from the front of a string is at least two bytes and no more
-- than the string has, so the loop of `interpolate` never steps over its end.
pub interpolate_at-extent :
    (ml : MatchList) (macros : Option MacroList) (s : Bytes) (n : ℕ) (sub : Bytes)
    → interpolate_at ml macros s ≡ done (some (n, sub))
    → (2 ≤ n) × (n ≤ length s)
unfolding interpolate_at
interpolate_at-extent ml macros s n sub h = go (isbackref s) (ismacro s) refl refl
  where
    go : (b : IsBackref) (m : IsMacro) → isbackref s ≡ b → ismacro s ≡ m → (2 ≤ n) × (n ≤ length s)
    go bad_backref m p q = ground (arith, p, h)
    go (backref k mi si) m p q =
        let within : Within (length s) (backref k mi si) =
          subst (Within (length s)) p (isbackref-Within s) in
        ground (arith, p, h, within)
    go no_backref no_macro p q = ground (arith, p, q, h)
    go no_backref unterminated p q = ground (arith, p, q, h)
    go no_backref (macro k name) p q =
        let within = macro_extent s k name q in ground (arith, p, q, h, within)
