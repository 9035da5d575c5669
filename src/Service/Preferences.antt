-- ===== src/Service/Preferences.antt =====
-- internal/service/preference.go.
use notify_hub.Prelude.{String, Bool, true, false, Option, none, some, if◌then◌else◌}
use notify_hub.Domain.Errors.{Err, app, app_cause, not_found, Result, ok, err}
use notify_hub.Domain.Notification.{Uuid, Time, Channel}
use notify_hub.Domain.Preference.{Preference, UpsertPreferenceRequest}
use notify_hub.Db.World.{Env}
use notify_hub.Db.Io.{Io}
use notify_hub.Repository.Preferences
use notify_hub.Service.Validation.{validated}
use notify_hub.Service.QuietHours.{Zones, in_quiet_hours}

-- err.(*domain.AppError) with Code == ErrCodeNotFound: an assertion, which unwraps nothing.
abbrev pub is_not_found : Err → Bool
is_not_found (app not_found m) = true
is_not_found (app_cause not_found m e) = true
is_not_found _ = false

-- The verdict on a notification: `none` allows it, `some reason` blocks it.
abbrev pub Verdict : Type 0
Verdict = Option String

abbrev pub quiet : Zones → Preference → Time → Bool
quiet zones pref now = elim pref.quiet_hours_start [
  | none ↦ false
  | some start ↦ elim pref.quiet_hours_end [
    | none ↦ false
    | some end ↦ in_quiet_hours zones start end pref.timezone now
  ]
]

unfoldable pub verdict : Zones → Time → Result Preference → Result Verdict
verdict zones now (err e) = if is_not_found e then ok none else err e
verdict zones now (ok pref) =
    if pref.enabled
    then (if quiet zones pref now then ok (some "quiet hours active") else ok none)
    else ok (some "channel disabled by user")

unfoldable pub is_allowed : Zones → Env → Uuid → String → Channel → Io Verdict
unfolding verdict Preferences.get
is_allowed zones env tenant user channel w =
    let r = Preferences.get env tenant user channel w in (verdict zones r.1.now r.0, r.1)

unfoldable pub upsert :
    Env → Bool → Uuid → String → Channel → UpsertPreferenceRequest → Io Preference
upsert env valid tenant user channel req =
    validated valid "validation failed" (Preferences.upsert env tenant user channel req)
