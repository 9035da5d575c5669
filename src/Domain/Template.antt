-- ===== src/Domain/Template.antt =====
-- internal/domain/template.go.
use notify_hub.Prelude.{ℕ, String, Bool, Option}
use notify_hub.Domain.Json.{Payload}
use notify_hub.Domain.Notification.{Uuid, Time, Channel}

pub record Template : Type 0 where
  pub id : Uuid
  pub name : String
  pub channel : Channel
  pub subject_template : Option String
  pub body_template : String
  pub metadata : Option Payload
  pub version : ℕ
  pub is_active : Bool
  pub created_at : Time
  pub updated_at : Time

pub record CreateTemplateRequest : Type 0 where
  pub name : String
  pub channel : Channel
  pub subject_template : Option String
  pub body_template : String
  pub metadata : Option Payload

pub record UpdateTemplateRequest : Type 0 where
  pub subject_template : Option String
  pub body_template : Option String
  pub metadata : Option Payload
  pub is_active : Option Bool
