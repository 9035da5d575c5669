-- ===== src/Repository/InApp/Marks.antt =====
-- internal/repository/inapp.go: what MarkRead and MarkAllRead do to the unread counts.
use notify_hub.Prelude.{
  suc, String, Bool, true, false, none, some, List, [], ◌∷◌, ◌≡◌, ◌≢◌, refl, sym, ap, ◌∙◌, arith,
  ◌⊎◌, inl, inr, length, filter, find?, find?-none, update_where, update_where-none, All, All-impl,
  Comparable, ◌==◌, nat_eq, string_eq, nat_beq_iff, ◌&&◌, Bool-cases, if◌then◌else◌,
}
use notify_hub.Domain.Notification.{Uuid, Time}
use notify_hub.Db.Models.{InappMessageRow}
use notify_hub.Db.World.{World, Env}
use notify_hub.Db.Io.{IsHealthy}
use notify_hub.Db.InAppQueries.{
  addressed, counted, read, count_unread, mark_in_app_message_read, mark_all_in_app_messages_read,
}
use notify_hub.Repository.Notifications.Isolation.{&&-left, &&-right}
use notify_hub.Repository.InApp.{mark_read, mark_all_read}
use notify_hub.Repository.InApp.Pages.{UniqueIds}

-- A message that is marked is not counted any more.
read-counted :
    (tenant : Uuid) (recipient : String) (now : Time) (r : InappMessageRow)
    → counted tenant recipient (read now r) ≡ false
read-counted tenant recipient now r = elim (Bool-cases (addressed tenant recipient r)) [
  | inl e ↦ rw e refl
  | inr e ↦ rw e refl
]

filter-counted-update_where :
    (tenant : Uuid) (recipient : String) (now : Time) (rs : List InappMessageRow)
    → filter (counted tenant recipient) (update_where (counted tenant recipient) (read now) rs) ≡ []
filter-counted-update_where tenant recipient now [] = refl
filter-counted-update_where tenant recipient now (r ∷ rs) =
    elim (Bool-cases (counted tenant recipient r)) [
      | inl e ↦
          rw (e, read-counted tenant recipient now r)
            (filter-counted-update_where tenant recipient now rs)
      | inr e ↦ rw (e, e) (filter-counted-update_where tenant recipient now rs)
    ]

pub addressed_lem :
    (tenant : Uuid) (recipient : String) (r : InappMessageRow)
    → addressed tenant recipient r ≡ true
    → (r.tenant_id ≡ tenant) × (r.recipient_id ≡ recipient)
addressed_lem tenant recipient r h = (
  (nat_beq_iff r.tenant_id tenant).0 (&&-left (r.tenant_id == tenant) _ h),
  (string_eq.same_iff r.recipient_id recipient).0 (&&-right (r.tenant_id == tenant) _ h),
)

-- No message is counted for two recipients.
counted-apart :
    (tenant tenant' : Uuid) (recipient recipient' : String) (r : InappMessageRow)
    → (tenant' ≢ tenant) ⊎ (recipient' ≢ recipient)
    → counted tenant recipient r ≡ true
    → counted tenant' recipient' r ≡ false
counted-apart tenant tenant' recipient recipient' r d h =
    let own = addressed_lem tenant recipient r (&&-left (addressed tenant recipient r) _ h) in
    elim (Bool-cases (counted tenant' recipient' r)) [
      | inl e ↦
          let other =
            addressed_lem tenant' recipient' r (&&-left (addressed tenant' recipient' r) _ e) in
          absurd (elim d [ inl f ↦ f cc | inr f ↦ f cc ])
      | inr e ↦ e
    ]

-- A write of read_at to rows that a second recipient's count does not hold leaves that count.
filter-counted-other :
    (q : InappMessageRow → Bool) (tenant : Uuid) (recipient : String) (now : Time)
    (rs : List InappMessageRow)
    → ((r : InappMessageRow) → q r ≡ true → counted tenant recipient r ≡ false)
    → filter (counted tenant recipient) (update_where q (read now) rs)
      ≡ filter (counted tenant recipient) rs
filter-counted-other q tenant recipient now [] k = refl
filter-counted-other q tenant recipient now (r ∷ rs) k = elim (Bool-cases (q r)) [
  | inl e ↦
      rw (e, read-counted tenant recipient now r, k r e)
        (filter-counted-other q tenant recipient now rs k)
  | inr e ↦ elim (Bool-cases (counted tenant recipient r)) [
    | inl f ↦ rw (e, f) (ap (λ zs. r ∷ zs) (filter-counted-other q tenant recipient now rs k))
    | inr f ↦ rw (e, f) (filter-counted-other q tenant recipient now rs k)
  ]
]

-- A second row does not pass the test that the first has passed.
unmarked :
    (id tenant : Uuid) (recipient : String) (r : InappMessageRow) (rs : List InappMessageRow)
    → All (λ s. r.id ≢ s.id) rs
    → (r.id == id && counted tenant recipient r) ≡ true
    → find? (λ s. s.id == id && counted tenant recipient s) rs ≡ none
unmarked id tenant recipient r rs u e =
    let same = (nat_beq_iff r.id id).0 (&&-left (r.id == id) _ e) in
    let other : (s : InappMessageRow)
        → r.id ≢ s.id
        → (s.id == id && counted tenant recipient s) ≡ false =
      λ s d. elim (Bool-cases (s.id == id)) [
        | inl f ↦ absurd (d (same ∙ sym ((nat_beq_iff s.id id).0 f)))
        | inr f ↦ rw f refl
      ] in
    find?-none _ rs (All-impl _ _ rs (λ s d. other s d) u)

-- A mark of one message takes one from the count.
length-counted :
    (id tenant : Uuid) (recipient : String) (now : Time) (rs : List InappMessageRow)
    (c : InappMessageRow)
    → UniqueIds rs
    → find? (λ r. r.id == id && counted tenant recipient r) rs ≡ some c
    → length (filter (counted tenant recipient) rs)
      ≡ suc (
          length (
            filter
              (counted tenant recipient)
              (update_where (λ r. r.id == id && counted tenant recipient r) (read now) rs)))
length-counted id tenant recipient now [] c u h = absurd (ground (arith, h))
length-counted id tenant recipient now (r ∷ rs) c u h =
    elim (Bool-cases (r.id == id && counted tenant recipient r)) [
      | inl e ↦
          let rest = update_where-none _ (read now) rs (unmarked id tenant recipient r rs u.0 e) in
          rw (e, read-counted tenant recipient now r, &&-right (r.id == id) _ e, rest) refl
      | inr e ↦
          let ih = length-counted id tenant recipient now rs c u.1 (rw e at h) in
          elim (Bool-cases (counted tenant recipient r)) [
            | inl f ↦ rw (e, f) (ap suc ih)
            | inr f ↦ rw (e, f) ih
          ]
    ]

differ {ℓ} : {K : Type ℓ} ⦃c : Comparable K⦄ (x y : K) → (x == y) ≡ false → x ≢ y
differ ⦃c⦄ x y e q = absurd (ground (arith, e, (c.same_iff x y).1 q))

module _ (env : Env) (up : IsHealthy env) where
  mark_all_read-count :
      (tenant : Uuid) (recipient : String) (w : World)
      → count_unread tenant recipient (mark_all_read env tenant recipient w).1 ≡ 0
  unfolding count_unread mark_all_read mark_all_in_app_messages_read
  mark_all_read-count tenant recipient w =
      rw (up w.calls, filter-counted-update_where tenant recipient w.now w.db.inapp_messages) refl

  mark_all_read-others :
      (tenant tenant' : Uuid) (recipient recipient' : String) (w : World)
      → (tenant' ≢ tenant) ⊎ (recipient' ≢ recipient)
      → count_unread tenant' recipient' (mark_all_read env tenant recipient w).1
        ≡ count_unread tenant' recipient' w
  unfolding count_unread mark_all_read mark_all_in_app_messages_read
  mark_all_read-others tenant tenant' recipient recipient' w d = rw (up w.calls) (
      ap length (
        filter-counted-other _ tenant' recipient' w.now w.db.inapp_messages
          (λ r. counted-apart tenant tenant' recipient recipient' r d)))

  -- While the database answers and ids are unique, MarkRead of an unread message of its recipient
  -- takes one from the recipient's unread count.
  pub mark_read-count_unread :
      (tenant id : Uuid) (recipient : String) (w : World) (c : InappMessageRow)
      → UniqueIds w.db.inapp_messages
      → find? (λ r. r.id == id && counted tenant recipient r) w.db.inapp_messages ≡ some c
      → count_unread tenant recipient w
        ≡ suc (count_unread tenant recipient (mark_read env tenant id recipient w).1)
  unfolding count_unread mark_read mark_in_app_message_read
  mark_read-count_unread tenant id recipient w c u h =
      rw (up w.calls) (length-counted id tenant recipient w.now w.db.inapp_messages c u h)

  -- While the database answers, MarkAllRead takes the unread count of its recipient to 0, and
  -- leaves the count of every other recipient, of this or another tenant, as it was.
  pub mark_all_read-count_unread :
      (tenant tenant' : Uuid) (recipient recipient' : String) (w : World)
      → count_unread tenant' recipient' (mark_all_read env tenant recipient w).1 ≡ (
          if tenant' == tenant && recipient' == recipient
          then 0
          else count_unread tenant' recipient' w)
  mark_all_read-count_unread tenant tenant' recipient recipient' w =
      elim (Bool-cases (tenant' == tenant)) [
        | inl e ↦ elim (Bool-cases (recipient' == recipient)) [
          | inl f ↦
              let a = (nat_beq_iff tenant' tenant).0 e in
              let b = (string_eq.same_iff recipient' recipient).0 f in
              rw (e, f, a, b) (mark_all_read-count tenant recipient w)
          | inr f ↦
              rw (e, f)
                (mark_all_read-others tenant tenant' recipient recipient' w
                  (inr (λ q. differ recipient' recipient f q)))
        ]
        | inr e ↦ rw e (
            mark_all_read-others tenant tenant' recipient recipient' w
              (inl (λ q. differ tenant' tenant e q)))
      ]
