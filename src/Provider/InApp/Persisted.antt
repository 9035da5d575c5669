-- ===== src/Provider/InApp/Persisted.antt =====
-- internal/provider/inapp/inapp.go: what Send leaves behind.
use notify_hub.Prelude.{
  suc, Bool, false, ◌∷◌, ◌≡◌, refl, arith, inl, inr, not, subst, ◌||◌, ◌==◌, nat_eq, string_eq,
  beq_refl, Bool-cases,
}
use notify_hub.Domain.Errors.{Err, Result, ok, err}
use notify_hub.Domain.Notification.{Notification}
use notify_hub.Db.World.{World, Env}
use notify_hub.Db.Io.{IsHealthy, reach}
use notify_hub.Db.InAppQueries.{insert_in_app_message, inapp_row, count_unread}
use notify_hub.Repository.InApp
use notify_hub.Repository.InApp.{insert_params, from_db_in_app}
use notify_hub.Provider.Errors.{is_temporary, is_permanent}
use notify_hub.Provider.Content.{extract_title_body}
use notify_hub.Provider.InApp.{Texts, inapp_message, channel_of, broadcast, send}

err_inj : {A : Type 0} (x y : Err) → Path (Result A) (err x) (err y) → x ≡ y
err_inj x y h = cc

module _ (texts : Texts) (env : Env) where
  -- Where the database and Redis answer and the payload gives a title and a body that are not
  -- empty: Send succeeds, the recipient of the notification has one unread message more, and the
  -- stored message is published on the channel of its tenant and recipient.
  pub send-persisted :
      (up : IsHealthy env) (n : Notification) (w : World)
      → ((extract_title_body n.payload).0 == "" || (extract_title_body n.payload).1 == "") ≡ false
      → let r = send texts env n w in
        (r.0 ≡ ok tt)
        × (count_unread n.tenant_id n.recipient_id r.1
            ≡ suc (count_unread n.tenant_id n.recipient_id w))
        × (r.1.published
            ≡ (
              channel_of texts n,
              from_db_in_app
                  (inapp_row (insert_params (inapp_message n (extract_title_body n.payload))) w),
            )
              ∷ w.published)
  unfolding send InApp.insert insert_in_app_message broadcast reach count_unread
  send-persisted up n w h =
      rw (h, up w.calls, up (suc w.calls), beq_refl n.tenant_id, beq_refl n.recipient_id)
        (refl, refl, refl)

  -- The payload gives no title or no body.
  abbrev pub lacking : Notification → Bool
  lacking n = let content = extract_title_body n.payload in content.0 == "" || content.1 == ""

  -- Nothing was stored or published, and the error tells whether a retry is of use.
  abbrev pub Unsaved : Notification → World → Err → Type 0
  Unsaved n w e =
      (is_permanent e ≡ lacking n)
      × (is_temporary e ≡ not (lacking n))
      × ((send texts env n w).1.db ≡ w.db)
      × ((send texts env n w).1.published ≡ w.published)

  -- Whatever fails: an error of Send is permanent where the payload gives no title or no body,
  -- and temporary otherwise, and then nothing was stored or published.
  pub send-Unsaved :
      (n : Notification) (w : World) (e : Err) → (send texts env n w).0 ≡ err e → Unsaved n w e
  unfolding send InApp.insert insert_in_app_message is_permanent is_temporary
  send-Unsaved n w e h = elim (Bool-cases (lacking n)) [
    | inl f ↦ subst (Unsaved n w) (err_inj _ e (rw f at h)) (rw f (refl, refl, refl, refl))
    | inr f ↦ elim (Bool-cases (env.faults w.calls)) [
      | inl g ↦
          subst (Unsaved n w) (err_inj _ e (rw (f, g) at h)) (rw (f, g) (refl, refl, refl, refl))
      | inr g ↦ absurd (ground (arith, h, f, g))
    ]
  ]
