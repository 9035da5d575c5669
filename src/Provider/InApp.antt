-- ===== src/Provider/InApp.antt =====
-- internal/provider/inapp/inapp.go. `bytes` gives the bytes of a text and `uuid_text` the text of a
-- uuid; what is published is the message that its JSON encodes, and encoding cannot fail.
pub mod Persisted
use notify_hub.Prelude.{
  ℕ, String, Bool, Option, none, some, List, ◌∷◌, ◌||◌, ◌==◌, string_eq, if◌then◌else◌,
}
use notify_hub.Domain.Errors.{Err, temporary, permanent, wrapped, plain, Result, ok, err}
use notify_hub.Domain.Notification.{Uuid, Notification}
use notify_hub.Domain.InApp.{InAppMessage}
use notify_hub.Db.World.{World, Env}
use notify_hub.Db.Io.{Io, reach}
use notify_hub.Repository.InApp
use notify_hub.Provider.Content.{extract_title_body}
use notify_hub.Realtime.Channels.{Bytes, redis_channel}

pub record Texts : Type 0 where
  pub bytes : String → Bytes
  pub uuid_text : Uuid → String

-- The message of a notification, before it is stored.
abbrev pub inapp_message : Notification → String × String → InAppMessage
inapp_message n content = record {
  id = 0;
  tenant_id = n.tenant_id;
  notification_id = some n.id;
  recipient_id = n.recipient_id;
  title = content.0;
  body = content.1;
  payload = n.payload;
  read_at = none;
  created_at = 0;
}

abbrev pub channel_of : Texts → Notification → Bytes
channel_of t n = redis_channel (t.bytes (t.uuid_text n.tenant_id)) (t.bytes n.recipient_id)

module _ (texts : Texts) (env : Env) where
  abbrev published_by : Bytes → InAppMessage → Result (Unit {0}) → World → World
  published_by channel m (ok u) w = record w { published = (channel, m) ∷ w.published }
  published_by channel m (err e) w = w

  -- rdb.Publish, whose error is logged.
  unfoldable pub broadcast : Notification → InAppMessage → World → World
  unfolding reach redis_channel
  broadcast n m w = let r = reach env w in published_by (channel_of texts n) m r.0 r.1

  abbrev pub stored : Notification → Result InAppMessage → Io (Unit {0})
  stored n (err e) w = (err (temporary (wrapped "persist inapp message" e)), w)
  stored n (ok saved) w = (ok tt, broadcast n saved w)

  -- Send
  unfoldable pub send : Notification → Io (Unit {0})
  unfolding extract_title_body InApp.insert
  send n w =
      let content = extract_title_body n.payload in
      let r = InApp.insert env (inapp_message n content) w in
      if content.0 == "" || content.1 == ""
      then (err (permanent (plain "inapp notification requires title and body in payload")), w)
      else stored n r.0 r.1
