-- ===== src/Db/World.antt =====
-- What the services act on: PostgreSQL, Kafka, Redis (its sorted sets, and the messages published
-- on its channels), the delivery providers and the clock. Each table and log holds its newest entry
-- first. `Env` is what the world decides: which call to PostgreSQL, Kafka or Redis fails, what the
-- providers and webhook endpoints answer, and whether the context is done when a retry waits. Where a query has no ORDER BY, `row_order` says at each
-- call which of two rows, known by their ids, PostgreSQL may give first: the rows are sorted by it,
-- whatever it answers, so that they come in any order. Calls are numbered by `calls`, sends by
-- `sends` and waits by `waits`.
use notify_hub.Prelude.{ℕ, String, Bool, Option, List}
use notify_hub.Domain.Errors.{Err}
use notify_hub.Domain.Notification.{Uuid, Time, Notification}
use notify_hub.Domain.InApp.{InAppMessage}
use notify_hub.Queue.Message.{Record}
use notify_hub.Db.Tables.{Tables}

pub record World : Type 0 where
  pub db : Tables
  pub topics : List Record
  pub sorted_sets : String → List ℕ
  pub sent : List Notification
  pub published : List (List ℕ × InAppMessage)
  pub slept : List ℕ
  pub now : Time
  pub calls : ℕ
  pub sends : ℕ
  pub waits : ℕ
  pub fresh : Uuid

pub record Env : Type 0 where
  pub faults : ℕ → Bool
  pub outcomes : ℕ → Option Err
  pub responses : ℕ → ℕ
  pub done : ℕ → Bool
  pub row_order : ℕ → Uuid → Uuid → Bool
