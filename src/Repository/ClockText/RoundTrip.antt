-- ===== src/Repository/ClockText/RoundTrip.antt =====
-- Times of day survive their text, and a text that parses names a time of day.
use notify_hub.Prelude.{ℕ, ◌+◌, ◌-◌, ◌*◌, ◌/◌, ◌%◌, ◌<◌, ◌≡◌, some, List, [], ◌∷◌, arith}
use notify_hub.Repository.ClockText.{
  parse_clock, parse_rest, parse_minute, format_clock, to_null_time_from_time_str,
  from_null_time_to_time_str,
}

-- Every time of day, an hour below 24 and a minute below 60, is read back from its text.
pub parse_clock-format_clock :
    (h m : ℕ) → h < 24 → m < 60 → parse_clock (format_clock h m) ≡ some (h, m)
unfolding parse_clock format_clock
parse_clock-format_clock h m p q = ground arith

parse_minute_range : (s : List ℕ) (m : ℕ) → parse_minute s ≡ some m → m < 60
unfolding parse_minute
parse_minute_range (a ∷ b ∷ []) m e = ground arith
parse_minute_range _ m e = ground arith

parse_rest_range :
    (h : ℕ) (s : List ℕ) (i j : ℕ) → parse_rest h s ≡ some (i, j) → (i < 24) × (j < 60)
unfolding parse_rest
parse_rest_range h [] i j e = ground arith
parse_rest_range h (c ∷ s) i j e = ground (arith, parse_minute_range s j)

-- Whatever text parses, the hour and the minute are in range.
pub parse_clock_range : (s : List ℕ) (h m : ℕ) → parse_clock s ≡ some (h, m) → (h < 24) × (m < 60)
unfolding parse_clock
parse_clock_range [] h m e = ground arith
parse_clock_range (a ∷ []) h m e = ground arith
parse_clock_range (a ∷ b ∷ s) h m e = ground (
  arith,
  parse_rest_range ((a - b'0') * 10 + (b - b'0')) s h m,
  parse_rest_range (a - b'0') (b ∷ s) h m,
)

-- A minute of the day, below 1440, is the same after it is printed for the caller and parsed for
-- the database again.
pub to_null_time-from_null_time :
    (t : ℕ) → t < 1440 → to_null_time_from_time_str (from_null_time_to_time_str (some t)) ≡ some t
unfolding to_null_time_from_time_str from_null_time_to_time_str
to_null_time-from_null_time t h = ground (arith, parse_clock-format_clock (t / 60) (t % 60))
