-- ===== src/Service/QuietHours/Circular.antt =====
-- The quiet hours as an interval on the circle of a day of 24 hours, in nanoseconds.
use notify_hub.Prelude.{ℕ, ◌+◌, ◌-◌, ◌*◌, ◌%◌, ◌<◌, ◌≡◌, ◌↔◌, String, true, not, arith}
use notify_hub.Domain.Notification.{Time}
use notify_hub.Repository.ClockText.{format_clock}
use notify_hub.Repository.ClockText.RoundTrip.{parse_clock-format_clock}
use notify_hub.Service.QuietHours.{
  Location, Zones, in_window, clock, utc, location_or_utc, in_quiet_hours,
}

abbrev pub day : Time
day = 86400000000000

-- How far the clock runs from one time of the day to another.
abbrev pub ahead : Time → Time → Time
ahead from to = (to + day - from) % day

-- The local day of `now` starts at `midnight` and has 24 hours on which the clock is not changed.
abbrev pub IsRegular : Location → Time → Time → Type 0
IsRegular loc now midnight = (h m : ℕ) → h < 24 → m < 60 → loc now h m ≡ midnight + clock h m

-- For times of one day, the window holds a time exactly when the clock reaches it from the start
-- of the window before it reaches the end, over midnight or not.
in_window-circular :
    (midnight start end now : Time)
    → start < day
    → end < day
    → now < day
    → (in_window (midnight + start) (midnight + end) (midnight + now) ≡ true)
      ↔ (ahead start now < ahead start end)
unfolding in_window
in_window-circular midnight start end now hs he hn = ground arith

-- Every day of UTC is such a day.
pub utc-IsRegular :
    (k : ℕ) (elapsed : Time) → elapsed < day → IsRegular utc (k * day + elapsed) (k * day)
utc-IsRegular k elapsed l h m p q = omega (arith, l)

-- Swapping the ends of a window that is not empty gives the times outside of it.
in_window-swap :
    (start end now : Time) → start < end → in_window end start now ≡ not (in_window start end now)
unfolding in_window
in_window-swap start end now h = ground arith

-- Quiet hours whose bounds are texts "HH:MM" of times of day, on a local day that starts at
-- `midnight` and on which the clock is not changed, in the zone that the name finds or else in
-- UTC: the time `elapsed` nanoseconds after midnight is quiet exactly when the clock reaches it
-- from the start before it reaches the end.
pub in_quiet_hours-circular :
    (zones : Zones) (sh sm eh em : ℕ) (timezone : String) (midnight elapsed : Time)
    → sh < 24
    → sm < 60
    → eh < 24
    → em < 60
    → elapsed < day
    → IsRegular (location_or_utc (zones timezone)) (midnight + elapsed) midnight
    → (in_quiet_hours zones (format_clock sh sm) (format_clock eh em) timezone (midnight + elapsed)
        ≡ true)
      ↔ (ahead (clock sh sm) elapsed < ahead (clock sh sm) (clock eh em))
unfolding in_quiet_hours
in_quiet_hours-circular zones sh sm eh em timezone midnight elapsed a b c d e regular =
    rw
      (
        in_quiet_hours,
        parse_clock-format_clock sh sm a b,
        parse_clock-format_clock eh em c d,
        regular sh sm a b,
        regular eh em c d,
      )
      (in_window-circular midnight (clock sh sm) (clock eh em) elapsed (omega (arith, a, b))
        (omega (arith, c, d)) e)
