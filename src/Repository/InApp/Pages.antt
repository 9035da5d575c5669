-- ===== src/Repository/InApp/Pages.antt =====
-- internal/repository/inapp.go: the pages that List and ListSince return.
use notify_hub.Prelude.{
  suc, ◌<◌, ◌^◌, String, Bool, true, false, some, List, [], ◌∷◌, ◌++◌, map, ◌≡◌, ◌≢◌, refl, arith,
  ◌⊎◌, take, filter, All, All-impl, AllApart, filter-page, sort_by, nat_eq, string_eq,
}
use notify_hub.Domain.Errors.{ok}
use notify_hub.Domain.Notification.{Uuid}
use notify_hub.Domain.InApp.{InboxQuery}
use notify_hub.Db.Models.{InappMessageRow}
use notify_hub.Db.World.{World, Env}
use notify_hub.Db.Io.{IsHealthy}
use notify_hub.Db.Limits.{int32-small}
use notify_hub.Db.InAppQueries.{
  visible, addressed, newest_first, oldest_first, get_in_app_message, list_inbox_after_cursor,
  list_inbox_since,
}
use notify_hub.Repository.InApp.{from_db_in_app, page_limit, list, list_after, list_since}

-- The primary key: no two rows have one id.
abbrev pub UniqueIds : List InappMessageRow → Type 0
UniqueIds [] = Unit
UniqueIds (r ∷ rs) = All (λ s. r.id ≢ s.id) rs × UniqueIds rs

-- The whole of what a query may list, newest first.
unfoldable pub inbox : Uuid → String → Bool → World → List InappMessageRow
unfolding sort_by
inbox tenant recipient unread_only w =
    sort_by newest_first (filter (visible tenant recipient unread_only) w.db.inapp_messages)

-- All messages of a recipient, oldest first.
unfoldable pub history : Uuid → String → World → List InappMessageRow
unfolding sort_by
history tenant recipient w =
    sort_by oldest_first (filter (addressed tenant recipient) w.db.inapp_messages)

newest_first_trans :
    (x y z : InappMessageRow)
    → newest_first x y ≡ true
    → newest_first y z ≡ true
    → newest_first x z ≡ true
newest_first_trans x y z h k = ground (arith, h, k)

newest_first_asym : (x y : InappMessageRow) → newest_first x y ≡ true → newest_first y x ≡ false
newest_first_asym x y h = ground (arith, h)

oldest_first_trans :
    (x y z : InappMessageRow)
    → oldest_first x y ≡ true
    → oldest_first y z ≡ true
    → oldest_first x z ≡ true
oldest_first_trans x y z h k = ground (arith, h, k)

oldest_first_asym : (x y : InappMessageRow) → oldest_first x y ≡ true → oldest_first y x ≡ false
oldest_first_asym x y h = ground (arith, h)

newest_first_total :
    (x y : InappMessageRow) → x.id ≢ y.id → (newest_first x y ≡ true) ⊎ (newest_first y x ≡ true)
newest_first_total x y h = ground (arith, h)

oldest_first_total :
    (x y : InappMessageRow) → x.id ≢ y.id → (oldest_first x y ≡ true) ⊎ (oldest_first y x ≡ true)
oldest_first_total x y h = ground (arith, h)

UniqueIds-newest_first : (rs : List InappMessageRow) → UniqueIds rs → AllApart newest_first rs
UniqueIds-newest_first [] h = tt
UniqueIds-newest_first (r ∷ rs) h =
    (All-impl _ _ rs (newest_first_total r) h.0, UniqueIds-newest_first rs h.1)

UniqueIds-oldest_first : (rs : List InappMessageRow) → UniqueIds rs → AllApart oldest_first rs
UniqueIds-oldest_first [] h = tt
UniqueIds-oldest_first (r ∷ rs) h =
    (All-impl _ _ rs (oldest_first_total r) h.0, UniqueIds-oldest_first rs h.1)

module _ (env : Env) (up : IsHealthy env) where
  -- While the database answers and ids are unique, the page that List returns after a message of
  -- the inbox is the next entries of the whole inbox, newest first, as many as the limit of the
  -- query (50 for none), below 2 ^ 31: no message is skipped and none is repeated.
  pub list-next_page :
      (q : InboxQuery) (w : World) (c : InappMessageRow) (xs ys : List InappMessageRow)
      → UniqueIds w.db.inapp_messages
      → q.after_id ≡ some c.id
      → get_in_app_message c.id q.tenant_id w ≡ some c
      → inbox q.tenant_id q.recipient_id q.unread_only w ≡ xs ++ c ∷ ys
      → page_limit q < 2 ^ 31
      → list env q w
        ≡ (ok (map from_db_in_app (take (page_limit q) ys)), record w { calls = suc (suc w.calls) })
  unfolding inbox list list_after list_inbox_after_cursor get_in_app_message
  list-next_page q w c xs ys u a g h l =
      let page =
        filter-page newest_first newest_first_trans newest_first_asym
          (visible q.tenant_id q.recipient_id q.unread_only) c xs ys w.db.inapp_messages
          (UniqueIds-newest_first w.db.inapp_messages u) h in
      rw (a, up w.calls, g, up (suc w.calls), page, int32-small (page_limit q) l) refl

  -- While the database answers and ids are unique, ListSince returns what follows a message of the
  -- recipient in his whole history, oldest first, but no more than 200 messages of it.
  pub list_since-follows :
      (tenant : Uuid) (recipient : String) (w : World) (c : InappMessageRow)
      (xs ys : List InappMessageRow)
      → UniqueIds w.db.inapp_messages
      → get_in_app_message c.id tenant w ≡ some c
      → history tenant recipient w ≡ xs ++ c ∷ ys
      → list_since env tenant recipient c.id w
        ≡ (ok (map from_db_in_app (take 200 ys)), record w { calls = suc (suc w.calls) })
  unfolding history list_since list_inbox_since get_in_app_message
  list_since-follows tenant recipient w c xs ys u g h =
      let page =
        filter-page oldest_first oldest_first_trans oldest_first_asym (addressed tenant recipient) c
          xs ys w.db.inapp_messages (UniqueIds-oldest_first w.db.inapp_messages u) h in
      rw (up w.calls, g, up (suc w.calls), page) refl
