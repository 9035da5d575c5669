-- ===== src/Repository/Notifications/Lifecycle.antt =====
-- internal/repository/notification.go: what Cancel, ListDueScheduled and Create do to the table.
use notify_hub.Prelude.{
  ℕ, suc, ◌≤◌, Bool, true, Option, none, some, List, ◌≡◌, ◌⊎◌, refl, ap, ◌∙◌, arith, find?,
  find?-holds, find?-Mem, Mem, Option-cases, inl, inr, find?-update_in, update_where-none, after,
  filter, take, sort_by, map, length, length-take, length-map, All, All-filter, All-take,
  All-sort_by, All-map, ◌==◌, nat_eq, string_eq, ◌&&◌, if◌then◌else◌, leb→le, Bool-cases,
  nat_beq_iff,
}
use notify_hub.Domain.Errors.{Err, ok, err, plain, new_internal_error}
use notify_hub.Domain.Notification.{
  Uuid, Time, Notification, NotificationStatus, pending, queued, dropped, SendRequest,
}
use notify_hub.Db.Models.{NotificationRow}
use notify_hub.Db.World.{World, Env}
use notify_hub.Db.Io.{IsHealthy}
use notify_hub.Db.Limits.{int32, int32-le}
use notify_hub.Db.NotificationQueries.{
  update_returning, has_tenant, cancellable, with_status, get_notification_by_id, is_due,
  is_pending, sooner, due_at, key_taken, list_due_scheduled_notifications,
}
use notify_hub.Repository.Notifications.Isolation.{&&-left, &&-right, has_tenant_lem}
use notify_hub.Repository.Notifications.{
  db_notification_to_domain, cancel, create, list_due_scheduled,
}

-- What Cancel is to do with a row: the tenant's notification is dropped if it is still waiting.
abbrev pub cancelled_row : Uuid → Uuid → Time → NotificationRow → NotificationRow
cancelled_row tenant id now r =
    if r.id == id && (has_tenant tenant r.tenant_id && cancellable r.status)
    then with_status dropped now r
    else r

-- A lookup after an UPDATE of the rows of a test finds the row as the update left it.
find?-update_returning :
    (p test : NotificationRow → Bool) (s : NotificationStatus) (w : World)
    → ((r : NotificationRow) → p (with_status s w.now r) ≡ p r)
    → find? p (update_returning test s w).1.db.notifications
      ≡ after (λ r. if test r then with_status s w.now r else r) (find? p w.db.notifications)
unfolding update_returning
find?-update_returning p test s w keeps =
    let found = find?-update_in p test (with_status s w.now) w.db.notifications keeps in
    elim (Option-cases (find? test w.db.notifications)) [
      | inl e ↦
          rw (update_returning, e)
            (rw (update_where-none test (with_status s w.now) w.db.notifications e) at found)
      | inr (r, e) ↦ rw (update_returning, e) found
    ]

-- The row that an UPDATE returns is one of the table that passed the test, with the new status.
update_returning_lem :
    (test : NotificationRow → Bool) (s : NotificationStatus) (w : World) (r' : NotificationRow)
    → (update_returning test s w).0 ≡ some r'
    → (r : NotificationRow) × Mem r w.db.notifications
      × (test r ≡ true)
      × (r' ≡ with_status s w.now r)
unfolding update_returning
update_returning_lem test s w r' h = elim (Option-cases (find? test w.db.notifications)) [
  | inl e ↦ absurd (ground (arith, rw (update_returning, e) at h))
  | inr (r, e) ↦ (
    r,
    find?-Mem test w.db.notifications r e,
    find?-holds test w.db.notifications r e,
    ground (arith, rw (update_returning, e) at h),
  )
]

abbrev cancel_test : Uuid → Uuid → NotificationRow → Bool
cancel_test tenant id r = r.id == id && (has_tenant tenant r.tenant_id && cancellable r.status)

cancellable_lem : (s : NotificationStatus) → cancellable s ≡ true → (s ≡ pending) ⊎ (s ≡ queued)
cancellable_lem s h = ground arith

-- A notification that the scheduler is to take.
abbrev pub IsDue : Time → Notification → Type 0
IsDue now n = (n.status ≡ pending) × ((t : Time) × (n.scheduled_at ≡ some t) × (t ≤ now))

pending_lem : (s : NotificationStatus) → is_pending s ≡ true → s ≡ pending
pending_lem s h = ground arith

due_at_lem :
    (now : Time) (o : Option Time) → due_at now o ≡ true → (t : Time) × (o ≡ some t) × (t ≤ now)
due_at_lem now none h = absurd (ground (arith, h))
due_at_lem now (some t) h = (t, refl, leb→le t now h)

module _ (env : Env) where
  module _ (up : IsHealthy env) where
    -- Where no call fails, a lookup of any notification by id and tenant after Cancel finds what
    -- it found before, except that the tenant's notification of that id is dropped if it was
    -- pending or queued.
    pub get_notification_by_id-cancel :
        (tenant id tenant' id' : Uuid) (w : World)
        → get_notification_by_id id' tenant' (cancel env tenant id w).1
          ≡ after (cancelled_row tenant id w.now) (get_notification_by_id id' tenant' w)
    unfolding cancel get_notification_by_id
    get_notification_by_id-cancel tenant id tenant' id' w = ground (
      arith,
      up w.calls,
      find?-update_returning (λ r. r.id == id' && has_tenant tenant' r.tenant_id)
          (cancel_test tenant id) dropped (record w { calls = suc w.calls }) (λ r. refl),
    )

  cancel-ok :
      (tenant id : Uuid) (w : World) (n : Notification)
      → (cancel env tenant id w).0 ≡ ok n
      → (r : NotificationRow) × ((update_returning
            (cancel_test tenant id)
            dropped
            (record w { calls = suc w.calls })).0
          ≡ some r)
        × (n ≡ db_notification_to_domain r)
  unfolding cancel
  cancel-ok tenant id w n h = elim (Bool-cases (env.faults w.calls)) [
    | inl e ↦ absurd (ground (arith, h, e))
    | inr e ↦
        elim (Option-cases
          (update_returning (cancel_test tenant id) dropped (record w { calls = suc w.calls })).0) [
            | inl f ↦ absurd (ground (arith, h, e, f))
            | inr (r, f) ↦ (r, f, ground (arith, h, e, f))
          ]
  ]

  -- A notification that Cancel returns is dropped and has the id and the tenant asked for. It is
  -- that of a row of the table that had this id and this tenant and was pending or queued, and in
  -- all but the status and the time of the update it is what the row says.
  pub cancel_lem :
      (tenant id : Uuid) (w : World) (n : Notification)
      → (cancel env tenant id w).0 ≡ ok n
      → (n.status ≡ dropped)
        × (n.id ≡ id)
        × (n.tenant_id ≡ tenant)
        × ((r : NotificationRow) × Mem r w.db.notifications
            × ((r.status ≡ pending) ⊎ (r.status ≡ queued))
            × (r.id ≡ id)
            × (r.tenant_id ≡ some tenant)
            × (n ≡ db_notification_to_domain (with_status dropped w.now r)))
  unfolding cancel
  cancel_lem tenant id w n h =
      let (r', e, same) = cancel-ok tenant id w n h in
      let (r, listed, passed, written) =
        update_returning_lem (cancel_test tenant id) dropped (record w { calls = suc w.calls }) r'
          e in
      let waiting = &&-right (r.id == id) _ passed in
      let of_tenant = has_tenant_lem tenant r.tenant_id (&&-left _ _ waiting) in
      let this = (nat_beq_iff r.id id).0 (&&-left (r.id == id) _ passed) in
      (
        rw (same, written) refl,
        rw (same, written) this,
        rw (same, written, of_tenant) refl,
        (
          r,
          listed,
          cancellable_lem r.status (&&-right (has_tenant tenant r.tenant_id) _ waiting),
          this,
          of_tenant,
          same ∙ ap db_notification_to_domain written,
        ),
      )

  due :
      (now : Time) (r : NotificationRow)
      → is_due now r ≡ true
      → IsDue now (db_notification_to_domain r)
  unfolding is_due
  due now r h = (
    pending_lem r.status (&&-left (is_pending r.status) _ h),
    due_at_lem now r.scheduled_at (&&-right (is_pending r.status) _ h),
  )

  abbrev due_rows : World → List NotificationRow
  due_rows w = sort_by sooner (filter (is_due w.now) w.db.notifications)

  due-ok :
      (limit : ℕ) (w : World) (ns : List Notification)
      → (list_due_scheduled env limit w).0 ≡ ok ns
      → (m : ℕ) × (int32 limit ≡ some m)
        × (ns ≡ map db_notification_to_domain (take m (due_rows w)))
  unfolding list_due_scheduled list_due_scheduled_notifications
  due-ok limit w ns h = elim (Option-cases (int32 limit)) [
    | inl e ↦ absurd (ground (arith, h, e))
    | inr (m, e) ↦ (m, e, ground (arith, h, e))
  ]

  -- ListDueScheduled returns at most `limit` notifications, all pending and scheduled for a time
  -- that has come.
  pub list_due_scheduled-IsDue :
      (limit : ℕ) (w : World) (ns : List Notification)
      → (list_due_scheduled env limit w).0 ≡ ok ns
      → (length ns ≤ limit) × All (IsDue w.now) ns
  unfolding list_due_scheduled list_due_scheduled_notifications
  list_due_scheduled-IsDue limit w ns h =
      let P = λ (r : NotificationRow). IsDue w.now (db_notification_to_domain r) in
      let (m, e, same) = due-ok limit w ns h in
      (
        rw same (
            omega (
              arith,
              length-map db_notification_to_domain (take m (due_rows w)),
              length-take m (due_rows w),
              int32-le limit m e,
            )),
        rw same (
            All-map (IsDue w.now) db_notification_to_domain (take m (due_rows w)) (
              All-take P m (due_rows w) (
                All-sort_by sooner P _
                  (All-filter P (is_due w.now) w.db.notifications (due w.now))))),
      )

  -- Create of a request whose idempotency key any row of the table holds, of whatever tenant, is
  -- an internal error, and the tables stay as they were.
  pub create-key_taken :
      (tenant : Uuid) (req : SendRequest) (w : World)
      → key_taken req.idempotency_key w.db.notifications ≡ true
      → ((e : Err) × (create env tenant req w).0
            ≡ err (new_internal_error "failed to insert notification" e))
        × ((create env tenant req w).1.db ≡ w.db)
  unfolding create
  create-key_taken tenant req w taken = elim (Bool-cases (env.faults w.calls)) [
    | inl e ↦ ((plain "connection refused", ground (arith, e)), ground (arith, e))
    | inr e ↦ ((plain "duplicate key value", ground (arith, e, taken)), ground (arith, e, taken))
  ]
