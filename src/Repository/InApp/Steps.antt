-- ===== src/Repository/InApp/Steps.antt =====
-- internal/repository/inapp.go: the operations that write inapp_messages as steps of one table.
use notify_hub.Prelude.{
  suc, ◌<◌, String, Bool, true, false, some, List, [], ◌∷◌, ◌≡◌, ◌≢◌, refl, ap, ◌∙◌, arith, inl,
  inr, find?, find?-All, find?-holds, find?-update_in, update_where, after, All, All-impl, ◌==◌,
  nat_eq, string_eq, ◌&&◌, Bool-cases,
}
use notify_hub.Domain.Notification.{Uuid, Time}
use notify_hub.Domain.InApp.{InAppMessage}
use notify_hub.Db.Models.{InappMessageRow}
use notify_hub.Db.World.{World, Env}
use notify_hub.Db.InAppQueries.{
  is_unread, addressed, counted, read, mark_in_app_message_read, mark_all_in_app_messages_read,
}
use notify_hub.Repository.Notifications.Isolation.{&&-right}
use notify_hub.Repository.InApp.{insert, mark_read, mark_all_read}
use notify_hub.Repository.InApp.Pages.{UniqueIds}

-- One write of the repository, which may fail, or the passing of time.
pub data InboxStep (env : Env) : World → World → Type 0 where
  inserted : (m : InAppMessage) (w : World) → InboxStep env w (insert env m w).1
  marked :
      (tenant id : Uuid) (recipient : String) (w : World)
      → InboxStep env w (mark_read env tenant id recipient w).1
  marked_all :
      (tenant : Uuid) (recipient : String) (w : World)
      → InboxStep env w (mark_all_read env tenant recipient w).1
  waited : (later : Time) (w : World) → InboxStep env w (record w { now = later })

pub data InboxSteps (env : Env) : World → World → Type 0 where
  stay : (w : World) → InboxSteps env w w
  step : {u v w : World} → InboxStep env u v → InboxSteps env v w → InboxSteps env u w

abbrev pub Known : World → Type 0
Known w = All (λ r. r.id < w.fresh) w.db.inapp_messages

-- Ids are unique, and the database has given out all of them.
abbrev pub WellFormed : World → Type 0
WellFormed w = UniqueIds w.db.inapp_messages × Known w

All-update_where :
    (P : Uuid → Type 0) (q : InappMessageRow → Bool) (now : Time) (rs : List InappMessageRow)
    → All (λ r. P r.id) rs
    → All (λ r. P r.id) (update_where q (read now) rs)
All-update_where P q now [] h = tt
All-update_where P q now (r ∷ rs) h = elim (Bool-cases (q r)) [
  | inl e ↦ rw e (h.0, All-update_where P q now rs h.1)
  | inr e ↦ rw e (h.0, All-update_where P q now rs h.1)
]

UniqueIds-update_where :
    (q : InappMessageRow → Bool) (now : Time) (rs : List InappMessageRow)
    → UniqueIds rs
    → UniqueIds (update_where q (read now) rs)
UniqueIds-update_where q now [] h = tt
UniqueIds-update_where q now (r ∷ rs) h =
    let rest = All-update_where (λ id. r.id ≢ id) q now rs h.0 in
    elim (Bool-cases (q r)) [
      | inl e ↦ rw e (rest, UniqueIds-update_where q now rs h.1)
      | inr e ↦ rw e (rest, UniqueIds-update_where q now rs h.1)
    ]

WellFormed-mark :
    (q : InappMessageRow → Bool) (w : World)
    → WellFormed w
    → WellFormed (record w {
      calls = suc w.calls;
      db = record w.db { inapp_messages = update_where q (read w.now) w.db.inapp_messages };
    })
WellFormed-mark q w (u, k) = (
  UniqueIds-update_where q w.now w.db.inapp_messages u,
  All-update_where (λ id. id < w.fresh) q w.now w.db.inapp_messages k,
)

InboxStep-WellFormed : (env : Env) (v w : World) → InboxStep env v w → WellFormed v → WellFormed w
unfolding insert mark_read mark_all_read mark_in_app_message_read mark_all_in_app_messages_read
InboxStep-WellFormed env _ _ (inserted m v) (u, k) = elim (Bool-cases (env.faults v.calls)) [
  | inl e ↦ rw e (u, k)
  | inr e ↦ rw e (
    (All-impl _ _ v.db.inapp_messages (λ r h f. omega (arith, h, f)) k, u),
    (omega arith, All-impl _ _ v.db.inapp_messages (λ r h. omega (arith, h)) k),
  )
]
InboxStep-WellFormed env _ _ (marked tenant id recipient v) h =
    elim (Bool-cases (env.faults v.calls)) [
      | inl e ↦ rw e h
      | inr e ↦ rw e (WellFormed-mark (λ r. r.id == id && counted tenant recipient r) v h)
    ]
InboxStep-WellFormed env _ _ (marked_all tenant recipient v) h =
    elim (Bool-cases (env.faults v.calls)) [
      | inl e ↦ rw e h
      | inr e ↦ rw e (WellFormed-mark (counted tenant recipient) v h)
    ]
InboxStep-WellFormed env _ _ (waited later v) h = h

-- Whatever the repository writes, in whatever order and with whatever failures, ids stay unique
-- and stay among those given out.
pub InboxSteps-WellFormed :
    (env : Env) (v w : World) → InboxSteps env v w → WellFormed v → WellFormed w
InboxSteps-WellFormed env _ _ (stay v) h = h
InboxSteps-WellFormed env u w (step {v = v} s rest) h =
    InboxSteps-WellFormed env v w rest (InboxStep-WellFormed env u v s h)

-- A write to unread rows does not touch a row that is read.
find?-read :
    (q : InappMessageRow → Bool) (id : Uuid) (now : Time) (rs : List InappMessageRow)
    (r : InappMessageRow)
    → ((s : InappMessageRow) → q s ≡ true → is_unread s ≡ true)
    → is_unread r ≡ false
    → find? (λ s. s.id == id) rs ≡ some r
    → find? (λ s. s.id == id) (update_where q (read now) rs) ≡ some r
find?-read q id now rs r k h e =
    find?-update_in (λ s. s.id == id) q (read now) rs (λ s. refl)
    ∙ ap (after _) e
    ∙ elim (Bool-cases (q r)) [ inl f ↦ absurd (ground (arith, h, k r f)) | inr f ↦ rw f refl ]

-- An id that is found is not the next to be given out.
unused :
    (id : Uuid) (w : World) (r : InappMessageRow)
    → Known w
    → find? (λ s. s.id == id) w.db.inapp_messages ≡ some r
    → (w.fresh == id) ≡ false
unused id w r k e =
    let given = find?-All _ (λ s. s.id < w.fresh) w.db.inapp_messages r k e in
    let same = find?-holds (λ s. s.id == id) w.db.inapp_messages r e in ground (arith, given, same)

InboxStep-read :
    (env : Env) (v w : World) (id : Uuid) (r : InappMessageRow)
    → InboxStep env v w
    → WellFormed v
    → is_unread r ≡ false
    → find? (λ s. s.id == id) v.db.inapp_messages ≡ some r
    → find? (λ s. s.id == id) w.db.inapp_messages ≡ some r
unfolding insert mark_read mark_all_read mark_in_app_message_read mark_all_in_app_messages_read
InboxStep-read env _ _ id r (inserted m v) (u, k) h e = elim (Bool-cases (env.faults v.calls)) [
  | inl f ↦ rw f e
  | inr f ↦ rw (f, unused id v r k e) e
]
InboxStep-read env _ _ id r (marked tenant i recipient v) g h e =
    elim (Bool-cases (env.faults v.calls)) [
      | inl f ↦ rw f e
      | inr f ↦ rw f (
          find?-read _ id v.now v.db.inapp_messages r
            (λ s b. &&-right (addressed tenant recipient s) _ (&&-right (s.id == i) _ b)) h e)
    ]
InboxStep-read env _ _ id r (marked_all tenant recipient v) g h e =
    elim (Bool-cases (env.faults v.calls)) [
      | inl f ↦ rw f e
      | inr f ↦ rw f (
          find?-read _ id v.now v.db.inapp_messages r
            (λ s b. &&-right (addressed tenant recipient s) _ b) h e)
    ]
InboxStep-read env _ _ id r (waited later v) g h e = e

-- Once a message is marked as read, no sequence of writes of the repository changes it any more:
-- the time of its first mark is kept. The table starts with unique ids.
pub InboxSteps-read :
    (env : Env) (v w : World) (id : Uuid) (r : InappMessageRow)
    → InboxSteps env v w
    → WellFormed v
    → is_unread r ≡ false
    → find? (λ s. s.id == id) v.db.inapp_messages ≡ some r
    → find? (λ s. s.id == id) w.db.inapp_messages ≡ some r
InboxSteps-read env _ _ id r (stay v) g h e = e
InboxSteps-read env u w id r (step {v = v} s rest) g h e =
    InboxSteps-read env v w id r rest (InboxStep-WellFormed env u v s g) h
      (InboxStep-read env u v id r s g h e)
