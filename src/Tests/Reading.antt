-- ===== src/Tests/Reading.antt =====
-- Instances of the theorems on the headers, the flags and the dates of messages.
use mdsort.Base.{
  ℕ, zero, suc, ◌*◌, ◌+◌, ◌≤◌, ◌<◌, true, false, none, some, List, [], ◌∷◌, ◌≡◌, refl, arith,
  if◌then◌else◌, codes, length, Ordering,
}
use mdsort.Base.Int.{pos, neg_ℤ}
use mdsort.DateTime.{tzparse, with_zone, Clock, Tz, tz_set, time_parse, tzoff}
use mdsort.DateTime.Zone.{tz_of, time_parse-restores, tzoff-digits}
use mdsort.Message.{Header, zero_flags}
use mdsort.Message.Flags.{is_message_flag_valid, message_flags_clr, message_flags_set}
use mdsort.Message.FlagUpdates.{isset_after, message_flags_set-isset}
use mdsort.Message.Search.{cmp_at, searchheader}
use mdsort.Message.Search.Sorted.{Around, range, searchheader-Around}

abbrev two_headers : List Header
two_headers =
    record { id = 1; key = codes "Cc"; val = codes "a" }
    ∷ record { id = 0; key = codes "To"; val = codes "b" }
    ∷ []

-- Only the second one is a To header.
to-Around : Around (cmp_at (codes "to") two_headers) (length two_headers) 1 2
unfolding cmp_at
to-Around = record {
  ordered = (omega arith, omega arith);
  above = λ i h. to-above i h;
  equal = λ i h k. to-equal i h k;
  below = λ i h k. absurd (omega arith);
}
  where
    to-above : (i : ℕ) → i < 1 → cmp_at (codes "to") two_headers i ≡ Ordering.gt
    to-above zero h = refl
    to-above (suc i) h = absurd (omega arith)

    to-equal : (i : ℕ) → 1 ≤ i → i < 2 → cmp_at (codes "to") two_headers i ≡ Ordering.eq
    to-equal zero h k = absurd (omega arith)
    to-equal (suc zero) h k = refl
    to-equal (suc (suc i)) h k = absurd (omega arith)

searchheader-Around_example : searchheader two_headers (codes "to") ≡ range 1 2
searchheader-Around_example = searchheader-Around two_headers (codes "to") 1 2 to-Around

message_flags_set-isset_example :
    (isset_after b'S' (message_flags_set zero_flags b'S')
      ≡ (if is_message_flag_valid b'S' then some true else none))
    × (isset_after b'S' (message_flags_clr zero_flags b'S')
        ≡ (if is_message_flag_valid b'S' then some false else none))
message_flags_set-isset_example = message_flags_set-isset zero_flags b'S'

-- A clock on which each date is the first second, in the zone CET.
abbrev cet_clock : Clock ℕ
cet_clock = record {
  zero_tm = 0;
  strptime = λ format str tm. (1, some (codes " CET"));
  mktime = λ tz tm. pos tm;
  gmtoff = λ tz. some (pos 3600);
  strftime = λ tz t. none;
  setenv_fails = λ name. false;
  unsetenv_fails = false;
}

abbrev tz_est : Tz
tz_est = record { state = tz_set; buf = codes "EST"; offset = pos 0 }

cet_parsed :
    (time_parse cet_clock (codes "now CET") tz_est (some (codes "EST"))).0 ≡ some (neg_ℤ 3599)
unfolding time_parse with_zone tzparse
cet_parsed = refl

time_parse-restores_example :
    (time_parse cet_clock (codes "now CET") tz_est (tz_of tz_est)).1 ≡ some (codes "EST")
time_parse-restores_example =
    time_parse-restores cet_clock (codes "now CET") tz_est (neg_ℤ 3599) cet_parsed

tzoff-digits_example :
    (tzoff (codes "+0530") ≡ some (pos (5 * 3600 + 30 * 60)))
    × (tzoff (codes "-0530") ≡ some (neg_ℤ (5 * 3600 + 30 * 60)))
tzoff-digits_example = tzoff-digits 5 30 [] (omega arith) (omega arith)
