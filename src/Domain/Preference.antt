-- ===== src/Domain/Preference.antt =====
-- internal/domain/preference.go. A time of day is the bytes of its text, "22:00".
use notify_hub.Prelude.{ℕ, String, Bool, Option, List}
use notify_hub.Domain.Notification.{Uuid, Time, Channel}

pub record Preference : Type 0 where
  pub id : Uuid
  pub user_id : String
  pub channel : Channel
  pub enabled : Bool
  pub quiet_hours_start : Option (List ℕ)
  pub quiet_hours_end : Option (List ℕ)
  pub frequency_cap : Option ℕ
  pub frequency_window_minutes : ℕ
  pub timezone : String
  pub created_at : Time
  pub updated_at : Time

pub record UpsertPreferenceRequest : Type 0 where
  pub enabled : Bool
  pub quiet_hours_start : Option (List ℕ)
  pub quiet_hours_end : Option (List ℕ)
  pub frequency_cap : Option ℕ
  pub frequency_window_minutes : Option ℕ
  pub timezone : Option String
