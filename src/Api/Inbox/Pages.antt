-- ===== src/Api/Inbox/Pages.antt =====
-- internal/api/handler/inbox.go: whose messages List answers with, and how many.
use notify_hub.Prelude.{
  ℕ, suc, ◌≤◌, String, Bool, true, false, Option, none, some, List, [], ◌∷◌, map, ◌≡◌, refl, arith,
  inl, inr, length, take, drop, filter, All, All-filter, All-take, All-map, All-sort_by, some_inj,
  subst, zero, length-take, length-map, ◌==◌, nat_eq, string_eq, ◌&&◌, Bool-cases, leb→le, ℤ, pos,
  negsuc,
}
use notify_hub.Domain.Errors.{Result, ok, err, wrapped}
use notify_hub.Domain.Notification.{Uuid}
use notify_hub.Domain.InApp.{InAppMessage, InboxQuery}
use notify_hub.Domain.Tenant.{ApiClient}
use notify_hub.Db.Models.{InappMessageRow}
use notify_hub.Db.World.{World, Env}
use notify_hub.Db.Io.{Io, pure, ◌>>=◌, map_err, query_one, query_checked}
use notify_hub.Db.Frames.{bind-ok, map_err-ok, query_checked-ok, ok_inj}
use notify_hub.Db.Limits.{int32, limited, offset_by, int32-le}
use notify_hub.Db.InAppQueries.{
  visible, addressed, older, get_in_app_message, list_inbox, list_inbox_after_cursor,
}
use notify_hub.Repository.Notifications.Isolation.{&&-left}
use notify_hub.Repository.InApp
use notify_hub.Repository.InApp.{from_db_in_app, page_limit, list_after, list_offset}
use notify_hub.Repository.InApp.Marks.{addressed_lem}
use notify_hub.Api.Responses.{success, reply_by, json_error}
use notify_hub.Api.Requests.{Request, Parsers, accepted}
use notify_hub.Api.Inbox.{page_size, inbox_query, list}

-- A page of a recipient's own messages, of at most `n`.
abbrev pub OwnPage : Uuid → String → ℕ → List InAppMessage → Type 0
OwnPage tenant recipient n ms =
    All (λ m. (m.tenant_id ≡ tenant) × (m.recipient_id ≡ recipient)) ms × (length ms ≤ n)

abbrev OwnRows : Uuid → String → List InappMessageRow → Type 0
OwnRows tenant recipient rs = All (λ r. (r.tenant_id ≡ tenant) × (r.recipient_id ≡ recipient)) rs

All-drop : {A : Type 0} (P : A → Type 0) (n : ℕ) (xs : List A) → All P xs → All P (drop n xs)
All-drop P zero xs h = h
All-drop P (suc n) [] h = h
All-drop P (suc n) (x ∷ xs) h = All-drop P n xs h.1

-- A page of own rows, cut by a limit that has passed through int32.
limited-Own :
    (tenant : Uuid) (recipient : String) (n : ℕ) (o : Option ℕ) (rs page : List InappMessageRow)
    → int32 n ≡ o
    → OwnRows tenant recipient rs
    → limited o rs ≡ some page
    → OwnPage tenant recipient n (map from_db_in_app page)
limited-Own tenant recipient n none rs page i h e = absurd (ground (arith, e))
limited-Own tenant recipient n (some m) rs page i h e =
    subst (λ p. OwnPage tenant recipient n (map from_db_in_app p)) (some_inj (take m rs) page e)
      (
        All-map _ from_db_in_app (take m rs) (All-take _ m rs h),
        omega (arith, length-map from_db_in_app (take m rs), length-take m rs, int32-le n m i),
      )

offset_by-Own :
    (tenant : Uuid) (recipient : String) (n : ℕ) (o : Option ℕ) (rs page : List InappMessageRow)
    → OwnRows tenant recipient rs
    → offset_by o (int32 n) rs ≡ some page
    → OwnPage tenant recipient n (map from_db_in_app page)
offset_by-Own tenant recipient n none rs page h e = absurd (ground (arith, e))
offset_by-Own tenant recipient n (some k) rs page h e =
    limited-Own tenant recipient n (int32 n) (drop k rs) page refl (All-drop _ k rs h) e

list_inbox-Own :
    (q : InboxQuery) (w : World) (page : List InappMessageRow)
    → list_inbox q.tenant_id q.recipient_id q.unread_only (int32 q.offset) (int32 (page_limit q)) w
      ≡ some page
    → OwnPage q.tenant_id q.recipient_id (page_limit q) (map from_db_in_app page)
unfolding list_inbox
list_inbox-Own q w page e =
    let test = visible q.tenant_id q.recipient_id q.unread_only in
    offset_by-Own q.tenant_id q.recipient_id (page_limit q) (int32 q.offset) _ page
      (All-sort_by _ _ (filter test w.db.inapp_messages) (
        All-filter _ test w.db.inapp_messages (λ r v.
          addressed_lem q.tenant_id q.recipient_id r
            (&&-left (addressed q.tenant_id q.recipient_id r) _ v))))
      e

list_inbox_after_cursor-Own :
    (q : InboxQuery) (w : World) (time id : ℕ) (page : List InappMessageRow)
    → list_inbox_after_cursor q.tenant_id q.recipient_id q.unread_only time id
        (int32 (page_limit q))
        w
      ≡ some page
    → OwnPage q.tenant_id q.recipient_id (page_limit q) (map from_db_in_app page)
unfolding list_inbox_after_cursor
list_inbox_after_cursor-Own q w time id page e =
    let own = visible q.tenant_id q.recipient_id q.unread_only in
    let test : InappMessageRow → Bool = λ r. own r && older time id r in
    limited-Own q.tenant_id q.recipient_id (page_limit q) _ _ page refl
      (All-sort_by _ _ (filter test w.db.inapp_messages) (
        All-filter _ test w.db.inapp_messages (λ r v.
          addressed_lem q.tenant_id q.recipient_id r
            (&&-left (addressed q.tenant_id q.recipient_id r) _ (&&-left (own r) _ v)))))
      e

module _ (env : Env) where
  list_offset-Own :
      (q : InboxQuery) (w : World) (ms : List InAppMessage)
      → (list_offset env q w).0 ≡ ok ms
      → OwnPage q.tenant_id q.recipient_id (page_limit q) ms
  unfolding list_offset
  list_offset-Own q w ms h =
      let find =
        list_inbox q.tenant_id q.recipient_id q.unread_only (int32 q.offset)
          (int32 (page_limit q)) in
      let run = map_err (wrapped "list inbox") (query_checked env find) in
      let (rows, e, f) = bind-ok run (λ rows. pure (map from_db_in_app rows)) w ms h in
      let g = query_checked-ok env find w rows (map_err-ok _ (query_checked env find) w rows e) in
      subst (OwnPage q.tenant_id q.recipient_id (page_limit q)) (ok_inj _ ms f)
        (list_inbox-Own q w rows g)

  -- List behind the lookup of the cursor.
  abbrev after_row : InboxQuery → InappMessageRow → Io (List InAppMessage)
  after_row q c =
      map_err (wrapped "list inbox after cursor") (
        query_checked env (
          list_inbox_after_cursor q.tenant_id q.recipient_id q.unread_only c.created_at c.id
            (int32 (page_limit q))))
      >>= λ rows. pure (map from_db_in_app rows)

  after_row-Own :
      (q : InboxQuery) (c : InappMessageRow) (w : World) (ms : List InAppMessage)
      → (after_row q c w).0 ≡ ok ms
      → OwnPage q.tenant_id q.recipient_id (page_limit q) ms
  after_row-Own q c w ms h =
      let find =
        list_inbox_after_cursor q.tenant_id q.recipient_id q.unread_only c.created_at c.id
          (int32 (page_limit q)) in
      let run = map_err (wrapped "list inbox after cursor") (query_checked env find) in
      let (rows, e, f) = bind-ok run (λ rows. pure (map from_db_in_app rows)) w ms h in
      let g = query_checked-ok env find w rows (map_err-ok _ (query_checked env find) w rows e) in
      subst (OwnPage q.tenant_id q.recipient_id (page_limit q)) (ok_inj _ ms f)
        (list_inbox_after_cursor-Own q w c.created_at c.id rows g)

  list_after-Own :
      (q : InboxQuery) (after_id : Uuid) (w : World) (ms : List InAppMessage)
      → (list_after env q after_id w).0 ≡ ok ms
      → OwnPage q.tenant_id q.recipient_id (page_limit q) ms
  unfolding list_after
  list_after-Own q after_id w ms h =
      let cursor =
        map_err (wrapped "list inbox cursor lookup")
          (query_one env (λ w. (get_in_app_message after_id q.tenant_id w, w))) in
      let (c, d, k) = bind-ok cursor (after_row q) w ms h in after_row-Own q c (cursor w).1 ms k

  list_by-Own :
      (q : InboxQuery) (o : Option Uuid) (w : World) (ms : List InAppMessage)
      → (InApp.list_by env q o w).0 ≡ ok ms
      → OwnPage q.tenant_id q.recipient_id (page_limit q) ms
  list_by-Own q none w ms h = list_offset-Own q w ms h
  list_by-Own q (some id) w ms h = list_after-Own q id w ms h

accepted-bound : (z : ℤ × Bool) → accepted page_size 50 z ≤ 200
accepted-bound (pos n, true) = ground (arith, leb→le n 200)
accepted-bound (pos n, false) = omega arith
accepted-bound (negsuc n, b) = omega arith

page_limit-bound :
    (p : Parsers) (req : Request) (tenant : Uuid) (recipient : String)
    → page_limit (inbox_query p req tenant recipient) ≤ 200
page_limit-bound p req tenant recipient =
    let b = accepted-bound (p.atoi (req.query "limit")) in
    elim (Bool-cases (req.query "limit" == "")) [
      | inl e ↦ ground (arith, e)
      | inr e ↦ ground (arith, e, b)
    ]

success_inj : {A : Type 0} (s t : ℕ) (r : Result A) (a : A) → reply_by s r ≡ success t a → r ≡ ok a
unfolding json_error
success_inj s t (ok b) a h = cc
success_inj s t (err e) a h = absurd (ground (arith, h))

-- Whatever fails: where GET /inbox answers with messages, all of them are of the caller's tenant
-- and of the recipient that the request names, and there are at most 200.
pub list-OwnPage :
    (parsers : Parsers) (env : Env) (client : ApiClient) (req : Request) (w : World) (status : ℕ)
    (ms : List InAppMessage)
    → (list parsers env client req w).0 ≡ success status ms
    → OwnPage client.tenant_id (req.header "X-Recipient-ID") 200 ms
unfolding list json_error InApp.list
list-OwnPage parsers env client req w status ms h =
    elim (Bool-cases (req.header "X-Recipient-ID" == "")) [
      | inl e ↦ absurd (ground (arith, h, e))
      | inr e ↦
          let q = inbox_query parsers req client.tenant_id (req.header "X-Recipient-ID") in
          let own =
            list_by-Own env q q.after_id w ms
              (success_inj 200 status (InApp.list env q w).0 ms (rw e at h)) in
          (
            own.0,
            omega (
              arith,
              own.1,
              page_limit-bound parsers req client.tenant_id (req.header "X-Recipient-ID"),
            ),
          )
    ]
