-- ===== src/Realtime/Hub.antt =====
-- internal/realtime/hub.go, Hub. A channel is known by its number; `channels` holds what every
-- channel that was made holds. A panic is `none`. Each operation is one step: what may happen
-- between the unlock and the sends of Publish is the matter of Races.
pub mod Delivery
pub mod Races
pub mod Live
pub mod Steps
use notify_hub.Prelude.{
  ℕ, suc, ◌-◌, Bool, true, false, not, Option, none, some, List, [], ◌∷◌, ◌++◌, length, filter, any,
  ◌==◌, nat_eq, ltb, if◌then◌else◌,
}
use notify_hub.Domain.InApp.{InAppMessage}
use notify_hub.Realtime.Channels.{Bytes}

pub record Chan : Type 0 where
  pub buffer : List InAppMessage
  pub is_open : Bool

abbrev pub Conns : Type 0
Conns = List (Bytes × List ℕ)

-- Two keys are one text.
abbrev pub same_bytes : Bytes → Bytes → Bool
same_bytes [] [] = true
same_bytes [] (d ∷ t) = false
same_bytes (c ∷ s) [] = false
same_bytes (c ∷ s) (d ∷ t) = let rest = same_bytes s t in if c == d then rest else false

pub record Hub : Type 0 where
  pub conns : Conns
  pub channels : ℕ → Chan
  pub next : ℕ
  pub buf_size : ℕ

-- NewHub; no negative size is configured.
unfoldable pub new_hub : ℕ → Hub
new_hub size = record {
  conns = [];
  channels = λ ch. record { buffer = []; is_open = false };
  next = 0;
  buf_size = if size == 0 then 32 else size;
}

-- h.conns[key]
abbrev pub members : Bytes → Conns → List ℕ
members k [] = []
members k ((j, set) ∷ conns) = let rest = members k conns in if same_bytes j k then set else rest

-- Make the set of the key if there is none, and add the channel.
abbrev pub join : Bytes → ℕ → Conns → Conns
join k ch [] = (k, ch ∷ []) ∷ []
join k ch ((j, set) ∷ conns) =
    let rest = join k ch conns in if same_bytes j k then (j, ch ∷ set) ∷ conns else (j, set) ∷ rest

-- Delete the channel, and the key when its set is empty.
abbrev pub kept : Bytes → List ℕ → Conns → Conns
kept j [] conns = conns
kept j (c ∷ set) conns = (j, c ∷ set) ∷ conns

abbrev pub leave : Bytes → ℕ → Conns → Conns
leave k ch [] = []
leave k ch ((j, set) ∷ conns) =
    let rest = leave k ch conns in
    if same_bytes j k then kept j (filter (λ c. not (c == ch)) set) conns else (j, set) ∷ rest

abbrev pub set_chan : ℕ → Chan → (ℕ → Chan) → ℕ → Chan
set_chan ch x channels c = if c == ch then x else channels c

-- Subscribe: the new channel, and the hub with it.
unfoldable pub subscribe : Bytes → Hub → ℕ × Hub
subscribe k h = (
  h.next,
  record h {
    conns = join k h.next h.conns;
    channels = set_chan h.next (record { buffer = []; is_open = true }) h.channels;
    next = suc h.next;
  },
)

-- close(ch), which panics on a closed channel.
abbrev pub close : ℕ → Hub → Option Hub
close ch h =
    if (h.channels ch).is_open
    then some (record h {
      channels = set_chan ch (record (h.channels ch) { is_open = false }) h.channels;
    })
    else none

-- cancel
unfoldable pub cancel : Bytes → ℕ → Hub → Option Hub
cancel k ch h = close ch (record h { conns = leave k ch h.conns })

-- `select { case ch <- msg: default: }` on an open channel: dropped where the buffer is full.
abbrev pub offered : ℕ → InAppMessage → Chan → Chan
offered size msg c =
    if ltb (length c.buffer) size then record c { buffer = c.buffer ++ msg ∷ [] } else c

-- The send, which panics on a closed channel.
unfoldable pub send : InAppMessage → ℕ → Hub → Option Hub
send msg ch h =
    if (h.channels ch).is_open
    then some
        (record h { channels = set_chan ch (offered h.buf_size msg (h.channels ch)) h.channels })
    else none

abbrev pub send_then : (Hub → Option Hub) → Option Hub → Option Hub
send_then k none = none
send_then k (some h) = k h

-- The loop of Publish over the channels of the key.
unfoldable pub send_all : InAppMessage → List ℕ → Hub → Option Hub
unfolding send
send_all msg [] h = some h
send_all msg (ch ∷ chs) h = send_then (send_all msg chs) (send msg ch h)

-- Publish
unfoldable pub publish : Bytes → InAppMessage → Hub → Option Hub
unfolding send_all
publish k msg h = send_all msg (members k h.conns) h
