-- ===== src/DateTime.antt =====
-- date-time.c: parsing and comparing dates. strptime(3), mktime(3), localtime(3) and the time
-- zone database are parameters.
pub mod Zone
use mdsort.Base.{
  ℕ, ◌+◌, ◌-◌, ◌*◌, Bool, true, false, ◌&&◌, Option, none, some, List, [], ◌∷◌, Bytes, codes, ltb,
  ◌==◌, if◌then◌else◌, is_digit, drop,
}
use mdsort.Base.Int.{ℤ, pos, negsuc, neg_ℤ, ◌+ℤ◌, ◌-ℤ◌}
use mdsort.Util.{nspaces}

-- Two digits and what follows them; `none` for `return 1`.
unfoldable pub two_digits : Bytes → Option (ℕ × Bytes)
unfolding is_digit
two_digits (a ∷ b ∷ s) =
    if is_digit a && is_digit b then some ((a - b'0') * 10 + (b - b'0'), s) else none
two_digits _ = none

unfoldable pub offset_seconds : ℕ → ℕ → Bool → ℤ
offset_seconds hours minutes negative =
    let seconds = hours * 60 * 60 + minutes * 60 in if negative then neg_ℤ seconds else pos seconds

unfoldable pub tzoff_digits : Bool → Bytes → Option ℤ
unfolding two_digits offset_seconds
tzoff_digits negative s = elim (two_digits s) [
  | none ↦ none
  | some (hours, r) ↦ if ltb 23 hours then none else elim (two_digits r) [
    | none ↦ none
    | some (minutes, _) ↦
        if ltb 59 minutes then none else some (offset_seconds hours minutes negative)
  ]
]

-- A numeric time zone, `+hhmm` or `-hhmm`.
unfoldable pub tzoff : Bytes → Option ℤ
unfolding tzoff_digits
tzoff [] = none
tzoff (c ∷ s) =
    if c == b'+' then tzoff_digits false s else if c == b'-' then tzoff_digits true s else none

-- `ev_tz` of the environment.
pub data TzState : Type 0 where
  tz_local tz_utc tz_set : TzState

pub record Tz : Type 0 where
  pub state : TzState
  pub buf : Bytes
  pub offset : ℤ

-- What is read of the C library and of its time zone database. A time zone is the value of TZ,
-- `none` if it is unset.
pub record Clock (Tm : Type 0) : Type 0 where
  pub zero_tm : Tm
  -- strptime(3): the fields read, and what follows where the whole format was read
  pub strptime : Bytes → Bytes → Tm → Tm × Option Bytes
  -- mktime(3) in a time zone, with `tm_isdst` -1
  pub mktime : Option Bytes → Tm → ℤ
  -- `tm_gmtoff` of localtime(3) at the current time
  pub gmtoff : Option Bytes → Option ℤ
  -- strftime(3) of localtime(3), `none` where it does not fit in 32 bytes
  pub strftime : Option Bytes → ℤ → Option Bytes
  pub setenv_fails : Bytes → Bool
  pub unsetenv_fails : Bool

abbrev pub formats : List Bytes
formats =
    codes "%a, %d %b %Y %H:%M:%S" ∷ codes "%a, %d %b %Y %H:%M" ∷ codes "%d %b %Y %H:%M:%S" ∷ []

module _ {Tm : Type 0} (clock : Clock Tm) where
  open clock use {strptime, mktime, gmtoff, zero_tm, setenv_fails, unsetenv_fails}

  -- The first format that fits; the fields read by one that does not stay.
  unfoldable pub timeparse_with : List Bytes → Bytes → Tm → Option (Tm × Bytes)
  timeparse_with [] str tm = none
  timeparse_with (f ∷ fs) str tm =
      let (tm', end) = strptime f str tm in
      elim end [ some rest ↦ some (tm', rest) | none ↦ timeparse_with fs str tm' ]

  unfoldable pub timeparse : Bytes → Option (Tm × Bytes)
  unfolding timeparse_with
  timeparse str = timeparse_with formats str zero_tm

  -- The reset of TZ to what the program was started with: whether it failed, and TZ.
  unfoldable pub reset_tz : Tz → Option Bytes → Bool × Option Bytes
  reset_tz tz current = elim tz.state [
    | tz_local ↦ if unsetenv_fails then (true, current) else (false, none)
    | _ ↦ if setenv_fails tz.buf then (true, current) else (false, some tz.buf)
  ]

  -- An abbreviated time zone, with TZ as it is left.
  unfoldable pub tzabbr : Bytes → Tz → Option Bytes → Option ℤ × Option Bytes
  unfolding reset_tz
  tzabbr [] tz current = (none, current)
  tzabbr (c ∷ s) tz current =
      if setenv_fails (c ∷ s)
      then (none, current)
      else let (failed, after) = reset_tz tz (some (c ∷ s)) in
        if failed then (none, after) else (gmtoff (some (c ∷ s)), after)

  unfoldable pub tzparse : Bytes → Tz → Option Bytes → Option ℤ × Option Bytes
  unfolding tzoff tzabbr
  tzparse str tz current = elim (tzoff str) [
    | some offset ↦ (some offset, current)
    | none ↦ tzabbr str tz current
  ]

  unfoldable pub is_minus_one : ℤ → Bool
  is_minus_one (pos n) = false
  is_minus_one (negsuc n) = n == 0

  -- The time in UTC, once its zone is known.
  unfoldable pub with_zone : ℤ → Tz → Option ℤ × Option Bytes → Option ℤ × Option Bytes
  unfolding ◌+ℤ◌ ◌-ℤ◌
  with_zone tim tz (none, after) = (none, after)
  with_zone tim tz (some offset, after) = (some ((tim -ℤ offset) +ℤ tz.offset), after)

  -- Behind `timeparse`.
  unfoldable pub parsed_time : Tz → Option Bytes → Tm × Bytes → Option ℤ × Option Bytes
  unfolding nspaces is_minus_one
  parsed_time tz current (tm, end) =
      if is_minus_one (mktime current tm)
      then (none, current)
      else with_zone (mktime current tm) tz (tzparse (drop (nspaces end) end) tz current)

  -- A date in the header's format, as seconds since the epoch.
  unfoldable pub time_parse : Bytes → Tz → Option Bytes → Option ℤ × Option Bytes
  unfolding timeparse parsed_time
  time_parse str tz current = elim (timeparse str) [
    | none ↦ (none, current)
    | some parsed ↦ parsed_time tz current parsed
  ]
