-- ===== src/Repository/ClockText.antt =====
-- internal/repository/convert.go: times of day. time.Parse and Time.Format are written out for the
-- one layout that the program uses, "15:04": an hour of one or two digits, a colon, a minute of two.
pub mod RoundTrip
use notify_hub.Prelude.{
  ℕ, ◌+◌, ◌-◌, ◌*◌, ◌/◌, ◌%◌, Bool, Option, none, some, List, [], ◌∷◌, leb, ltb, ◌&&◌, ◌==◌, nat_eq,
  if◌then◌else◌,
}

abbrev pub is_digit : ℕ → Bool
is_digit c = leb b'0' c && leb c b'9'

-- getnum(s, true): the two digits of a minute, to the end of the text.
unfoldable pub parse_minute : List ℕ → Option ℕ
parse_minute (a ∷ b ∷ []) =
    if is_digit a && is_digit b
    then (let m = (a - b'0') * 10 + (b - b'0') in if ltb m 60 then some m else none)
    else none
parse_minute _ = none

abbrev pub minute_of : ℕ → Option ℕ → Option (ℕ × ℕ)
minute_of h none = none
minute_of h (some m) = some (h, m)

-- The colon and the minute, behind an hour in range.
unfoldable pub parse_rest : ℕ → List ℕ → Option (ℕ × ℕ)
unfolding parse_minute
parse_rest h [] = none
parse_rest h (c ∷ rest) = if c == b':' && ltb h 24 then minute_of h (parse_minute rest) else none

-- time.Parse("15:04", s), as hour and minute.
unfoldable pub parse_clock : List ℕ → Option (ℕ × ℕ)
unfolding parse_rest
parse_clock [] = none
parse_clock (a ∷ []) = none
parse_clock (a ∷ b ∷ rest) =
    if is_digit a
    then (if is_digit b
        then parse_rest ((a - b'0') * 10 + (b - b'0')) rest
        else parse_rest (a - b'0') (b ∷ rest))
    else none

abbrev digit : ℕ → ℕ
digit n = b'0' + n % 10

-- t.Format("15:04")
unfoldable pub format_clock : ℕ → ℕ → List ℕ
format_clock h m = digit (h / 10) ∷ digit h ∷ b':' ∷ digit (m / 10) ∷ digit m ∷ []

-- toNullTimeFromTimeStr: the minute of the day, and NULL for a text that does not parse.
unfoldable pub to_null_time_from_time_str : Option (List ℕ) → Option ℕ
unfolding parse_clock
to_null_time_from_time_str none = none
to_null_time_from_time_str (some s) = elim (parse_clock s) [
  | none ↦ none
  | some (h, m) ↦ some (h * 60 + m)
]

-- fromNullTimeToTimeStr
unfoldable pub from_null_time_to_time_str : Option ℕ → Option (List ℕ)
unfolding format_clock
from_null_time_to_time_str none = none
from_null_time_to_time_str (some t) = some (format_clock (t / 60) (t % 60))
