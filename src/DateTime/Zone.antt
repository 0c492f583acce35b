-- ===== src/DateTime/Zone.antt =====
-- Time zones: the TZ variable after an abbreviation has been looked up, and the range of an offset.
use mdsort.Base.{
  ℕ, ◌+◌, ◌-◌, ◌*◌, ◌/◌, ◌%◌, ◌<◌, Bool, true, false, Option, none, some, [], ◌∷◌, ◌≡◌, refl, ◌∙◌,
  ap, arith, Bytes, is_digit, Option-cases, Bool-cases, inl, inr, drop,
}
use mdsort.Util.{nspaces}
use mdsort.Base.Int.{ℤ, pos, neg_ℤ}
use mdsort.DateTime.{
  tz_local, Tz, Clock, reset_tz, tzabbr, tzparse, tzoff, tzoff_digits, two_digits, offset_seconds,
  time_parse, timeparse, with_zone, parsed_time, is_minus_one,
}

-- The TZ variable as the environment says that the program was started with.
abbrev pub tz_of : Tz → Option Bytes
tz_of tz = elim tz.state [ tz_local ↦ none | _ ↦ some tz.buf ]

module _ {Tm : Type 0} (clock : Clock Tm) where
  reset_tz_lem :
      (tz : Tz) (current : Option Bytes)
      → (reset_tz clock tz current).0 ≡ false
      → (reset_tz clock tz current).1 ≡ tz_of tz
  unfolding reset_tz
  reset_tz_lem tz current h = ground (arith, h)

  tzabbr-restores :
      (str : Bytes) (tz : Tz) (current : Option Bytes) (offset : ℤ)
      → (tzabbr clock str tz current).0 ≡ some offset
      → (tzabbr clock str tz current).1 ≡ tz_of tz
  unfolding tzabbr
  tzabbr-restores [] tz current offset h = ground (arith, h)
  tzabbr-restores (c ∷ s) tz current offset h = ground (arith, h, reset_tz_lem tz (some (c ∷ s)))

  tzparse-restores :
      (str : Bytes) (tz : Tz) (offset : ℤ)
      → (tzparse clock str tz (tz_of tz)).0 ≡ some offset
      → (tzparse clock str tz (tz_of tz)).1 ≡ tz_of tz
  unfolding tzparse
  tzparse-restores str tz offset h = elim (Option-cases (tzoff str)) [
    | inl e ↦ rw (tzparse, e) (tzabbr-restores str tz (tz_of tz) offset (rw (tzparse, e) at h))
    | inr e ↦ ground (arith, e.1)
  ]

  with_zone-restores :
      (tim : ℤ) (tz : Tz) (p : Option ℤ × Option Bytes) (time : ℤ)
      → ((offset : ℤ) → p.0 ≡ some offset → p.1 ≡ tz_of tz)
      → (with_zone clock tim tz p).0 ≡ some time
      → (with_zone clock tim tz p).1 ≡ tz_of tz
  unfolding with_zone
  with_zone-restores tim tz (none, after) time f h = ground (arith, h)
  with_zone-restores tim tz (some offset, after) time f h = f offset refl

  parsed_time-restores :
      (tz : Tz) (parsed : Tm × Bytes) (time : ℤ)
      → (parsed_time clock tz (tz_of tz) parsed).0 ≡ some time
      → (parsed_time clock tz (tz_of tz) parsed).1 ≡ tz_of tz
  unfolding parsed_time
  parsed_time-restores tz (tm, end) time h =
      elim (Bool-cases (is_minus_one clock (clock.mktime (tz_of tz) tm))) [
        | inl e ↦ rw (parsed_time, e) refl
        | inr e ↦
            rw (parsed_time, e)
              (with_zone-restores (clock.mktime (tz_of tz) tm) tz _ time
                (tzparse-restores (drop (nspaces end) end) tz) (rw (parsed_time, e) at h))
      ]

  -- If the TZ variable is what the program was started with and a date is parsed with success, the
  -- variable is the same afterwards, whatever time zone the date names.
  pub time_parse-restores :
      (str : Bytes) (tz : Tz) (time : ℤ)
      → (time_parse clock str tz (tz_of tz)).0 ≡ some time
      → (time_parse clock str tz (tz_of tz)).1 ≡ tz_of tz
  unfolding time_parse
  time_parse-restores str tz time h = elim (Option-cases (timeparse clock str)) [
    | inl e ↦ rw (time_parse, e) refl
    | inr e ↦ rw (time_parse, e.1) (parsed_time-restores tz e.0 time (rw (time_parse, e.1) at h))
  ]

-- The decimal digit of a number below ten.
abbrev pub digit : ℕ → ℕ
digit n = b'0' + n

two_digits_lem :
    (n : ℕ) (s : Bytes) → n < 100 → two_digits (digit (n / 10) ∷ digit (n % 10) ∷ s) ≡ some (n, s)
unfolding two_digits is_digit
two_digits_lem n s h =
    let whole : (digit (n / 10) - b'0') * 10 + (digit (n % 10) - b'0') ≡ n = omega arith in
    ground (arith, whole)

tzoff_digits_lem :
    (negative : Bool) (hours minutes : ℕ) (s : Bytes)
    → hours < 24
    → minutes < 60
    → tzoff_digits negative
        (digit (hours / 10) ∷ digit (hours % 10) ∷ digit (minutes / 10) ∷ digit (minutes % 10) ∷ s)
      ≡ some (offset_seconds hours minutes negative)
unfolding tzoff_digits
tzoff_digits_lem negative hours minutes s h m =
    rw
      (
        tzoff_digits,
        two_digits_lem hours (digit (minutes / 10) ∷ digit (minutes % 10) ∷ s) (omega arith),
        two_digits_lem minutes s (omega arith),
      )
      (ground arith)

-- `tzoff` reads a sign and four digits, hours below 24 and minutes below 60, as the number of
-- seconds east of UTC, whatever follows them.
pub tzoff-digits :
    (hours minutes : ℕ) (s : Bytes)
    → hours < 24
    → minutes < 60
    → (tzoff (
          b'+'
          ∷ digit (hours / 10)
          ∷ digit (hours % 10)
          ∷ digit (minutes / 10)
          ∷ digit (minutes % 10)
          ∷ s)
        ≡ some (pos (hours * 3600 + minutes * 60)))
      × (tzoff (
            b'-'
            ∷ digit (hours / 10)
            ∷ digit (hours % 10)
            ∷ digit (minutes / 10)
            ∷ digit (minutes % 10)
            ∷ s)
          ≡ some (neg_ℤ (hours * 3600 + minutes * 60)))
unfolding tzoff offset_seconds
tzoff-digits hours minutes s h m = (
  tzoff_digits_lem false hours minutes s h m ∙ ap (λ n. some (pos n)) (omega arith),
  tzoff_digits_lem true hours minutes s h m ∙ ap (λ n. some (neg_ℤ n)) (omega arith),
)
