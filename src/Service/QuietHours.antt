-- ===== src/Service/QuietHours.antt =====
-- internal/service/preference.go, inQuietHours. `zones` is the time-zone database: what
-- time.LoadLocation finds. Of a location the code uses one thing, the instant of an hour and a
-- minute of the local day on which a time falls: time.Date(now.Year(), now.Month(), now.Day(), h,
-- m, 0, 0, loc) for a `now` in that location. Instants are compared, so that on a day on which
-- the clock is changed the window is the one of the changed clock.
pub mod Circular
use notify_hub.Prelude.{
  ℕ, ◌+◌, ◌-◌, ◌*◌, ◌%◌, String, Bool, false, Option, none, some, List, leb, ltb, ◌&&◌, ◌||◌,
  if◌then◌else◌,
}
use notify_hub.Domain.Notification.{Time}
use notify_hub.Repository.ClockText.{parse_clock}

abbrev pub Location : Type 0
Location = Time → ℕ → ℕ → Time

abbrev pub Zones : Type 0
Zones = String → Option Location

-- The comparison of `now` with the window [start, end), which may run over midnight.
unfoldable pub in_window : Time → Time → Time → Bool
in_window start end now =
    if leb start end then leb start now && ltb now end else leb start now || ltb now end

-- The nanoseconds from midnight to an hour and a minute of a day of 24 hours.
abbrev pub clock : ℕ → ℕ → Time
clock h m = (h * 60 + m) * 60000000000

-- time.UTC
abbrev pub utc : Location
utc now h m = (now - now % 86400000000000) + clock h m

abbrev pub location_or_utc : Option Location → Location
location_or_utc none = utc
location_or_utc (some loc) = loc

unfoldable pub in_quiet_hours : Zones → List ℕ → List ℕ → String → Time → Bool
unfolding in_window parse_clock
in_quiet_hours zones start end timezone now = elim (parse_clock start) [
  | none ↦ false
  | some (sh, sm) ↦ elim (parse_clock end) [
    | none ↦ false
    | some (eh, em) ↦
        let loc = location_or_utc (zones timezone) in in_window (loc now sh sm) (loc now eh em) now
  ]
]
