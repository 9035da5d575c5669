-- ===== src/Realtime/Hub/Steps.antt =====
-- internal/realtime/hub.go: the hub under any sequence of whole operations.
use notify_hub.Prelude.{
  ℕ, ◌<◌, true, not, some, some_inj, List, [], ◌∷◌, ◌++◌, drop, ◌≡◌, ◌≢◌, refl, sym, subst, ◌∙◌,
  arith, filter, All, All-impl, ◌==◌, nat_eq, nat_beq_iff, beq_refl, Bool-cases, inl, inr,
}
use notify_hub.Domain.InApp.{InAppMessage}
use notify_hub.Realtime.Channels.{Bytes}
use notify_hub.Realtime.Hub.{
  Conns, Hub, Chan, same_bytes, members, kept, leave, set_chan, new_hub, subscribe, cancel, publish,
}
use notify_hub.Realtime.Hub.Delivery.{
  Distinct, AllOpen, Delivered, Delivered-AllOpen, publish-Delivered,
}
use notify_hub.Realtime.Hub.Live.{
  live, In, All-append, All-right, All-members, All-join, All-leave, Distinct-members,
  Distinct-right, Distinct-join, Distinct-leave, any-left, any-right,
}

In-All : (P : ℕ → Type 0) (ch : ℕ) (cs : List ℕ) → All P cs → In ch cs → P ch
In-All P ch [] h i = absurd (ground (arith, i))
In-All P ch (c ∷ cs) h i = elim (Bool-cases (c == ch)) [
  | inl e ↦ subst P ((nat_beq_iff c ch).0 e) h.0
  | inr e ↦ In-All P ch cs h.1 (rw e at i)
]

-- A channel of a first list is in no second one.
In-apart-right :
    (ch : ℕ) (set xs : List ℕ) → Distinct (set ++ xs) → In ch set → All (λ c. c ≢ ch) xs
In-apart-right ch [] xs d i = absurd (ground (arith, i))
In-apart-right ch (c ∷ set) xs d i = elim (Bool-cases (c == ch)) [
  | inl e ↦ All-impl _ _ xs (λ x n q. n ((nat_beq_iff c ch).0 e ∙ sym q)) (All-right _ set xs d.0)
  | inr e ↦ In-apart-right ch set xs d.1 (rw e at i)
]

In-apart-left : (ch : ℕ) (set xs : List ℕ) → Distinct (set ++ xs) → In ch xs → All (λ c. c ≢ ch) set
In-apart-left ch [] xs d i = tt
In-apart-left ch (c ∷ set) xs d i =
    (In-All (λ x. c ≢ x) ch xs (All-right _ set xs d.0) i, In-apart-left ch set xs d.1 i)

In-members : (ch : ℕ) (k : Bytes) (conns : Conns) → In ch (members k conns) → In ch (live conns)
In-members ch k [] i = i
In-members ch k ((j, set) ∷ conns) i = elim (Bool-cases (same_bytes j k)) [
  | inl e ↦ any-left ch set (live conns) (rw e at i)
  | inr e ↦ any-right ch set (live conns) (In-members ch k conns (rw e at i))
]

without : (ch : ℕ) (cs : List ℕ) → All (λ c. c ≢ ch) (filter (λ c. not (c == ch)) cs)
without ch [] = tt
without ch (c ∷ cs) = elim (Bool-cases (c == ch)) [
  | inl e ↦ rw e (without ch cs)
  | inr e ↦ rw e ((λ q. ground (arith, e, q)), without ch cs)
]

kept-gone :
    (ch : ℕ) (j : Bytes) (set : List ℕ) (conns : Conns)
    → All (λ c. c ≢ ch) (set ++ live conns)
    → All (λ c. c ≢ ch) (live (kept j set conns))
kept-gone ch j [] conns h = h
kept-gone ch j (c ∷ set) conns h = h

-- A channel that leaves its key is nowhere else in the map.
leave-gone :
    (k : Bytes) (ch : ℕ) (conns : Conns)
    → Distinct (live conns)
    → In ch (members k conns)
    → All (λ c. c ≢ ch) (live (leave k ch conns))
leave-gone k ch [] d i = tt
leave-gone k ch ((j, set) ∷ conns) d i = elim (Bool-cases (same_bytes j k)) [
  | inl e ↦ rw e (
      kept-gone ch j (filter (λ c. not (c == ch)) set) conns (
        All-append _ (filter (λ c. not (c == ch)) set) (live conns) (without ch set)
          (In-apart-right ch set (live conns) d (rw e at i))))
  | inr e ↦
      let m : In ch (members k conns) = rw e at i in
      rw e (
        All-append _ set (live (leave k ch conns))
          (In-apart-left ch set (live conns) d (In-members ch k conns m))
          (leave-gone k ch conns (Distinct-right set (live conns) d) m))
]

-- What Subscribe, a cancel of a subscribed channel, Publish and a read of a channel do to a hub,
-- each as one step.
pub data HubStep : Hub → Hub → Type 0 where
  subscribed : (k : Bytes) (h : Hub) → HubStep h (subscribe k h).1
  cancelled :
      (k : Bytes) (ch : ℕ) (h after : Hub)
      → In ch (members k h.conns)
      → cancel k ch h ≡ some after
      → HubStep h after
  published :
      (k : Bytes) (msg : InAppMessage) (h after : Hub)
      → publish k msg h ≡ some after
      → HubStep h after
  received :
      (ch : ℕ) (h : Hub)
      → HubStep h (record h {
        channels =
            set_chan ch
              (record (h.channels ch) { buffer = drop 1 (h.channels ch).buffer })
              h.channels;
      })

pub data HubSteps : Hub → Hub → Type 0 where
  stay : (h : Hub) → HubSteps h h
  step : {g h i : Hub} → HubSteps g h → HubStep h i → HubSteps g i

-- The channels of the map are distinct, open, and have been made.
abbrev pub Sound : Hub → Type 0
Sound h = Distinct (live h.conns) × AllOpen h (live h.conns) × All (λ c. c < h.next) (live h.conns)

-- A write to one channel that leaves it open leaves the others open.
AllOpen-set_chan :
    (h : Hub) (ch : ℕ) (x : Chan) (cs : List ℕ)
    → x.is_open ≡ (h.channels ch).is_open
    → AllOpen h cs
    → AllOpen (record h { channels = set_chan ch x h.channels }) cs
AllOpen-set_chan h ch x cs e a =
    All-impl _ _ cs
      (λ c o. elim (Bool-cases (c == ch)) [
        | inl f ↦ rw f (e ∙ subst (λ z. (h.channels z).is_open ≡ true) ((nat_beq_iff c ch).0 f) o)
        | inr f ↦ rw f o
      ])
      a

-- A write to a channel that a list does not hold.
AllOpen-other :
    (h : Hub) (ch : ℕ) (x : Chan) (cs : List ℕ)
    → All (λ c. c ≢ ch) cs
    → AllOpen h cs
    → AllOpen (record h { channels = set_chan ch x h.channels }) cs
AllOpen-other h ch x [] n a = tt
AllOpen-other h ch x (c ∷ cs) n a = elim (Bool-cases (c == ch)) [
  | inl f ↦ absurd (n.0 ((nat_beq_iff c ch).0 f))
  | inr f ↦ (rw f a.0, AllOpen-other h ch x cs n.1 a.1)
]

subscribe-Sound : (k : Bytes) (h : Hub) → Sound h → Sound (subscribe k h).1
unfolding subscribe
subscribe-Sound k h (d, o, b) =
    let fresh : All (λ c. c ≢ h.next) (live h.conns) =
      All-impl _ _ (live h.conns) (λ c l q. omega (arith, l, q)) b in
    (
      Distinct-join k h.next h.conns fresh d,
      All-join _ k h.next h.conns (AllOpen-other h h.next _ (live h.conns) fresh o)
          (rw (beq_refl h.next) refl),
      All-join _ k h.next h.conns (All-impl _ _ (live h.conns) (λ c l. omega (arith, l)) b)
          (omega arith),
    )

cancel-Sound :
    (k : Bytes) (ch : ℕ) (h after : Hub)
    → In ch (members k h.conns)
    → cancel k ch h ≡ some after
    → Sound h
    → Sound after
unfolding cancel
cancel-Sound k ch h after i e (d, o, b) = elim (Bool-cases (h.channels ch).is_open) [
  | inl f ↦ subst Sound (some_inj _ after (rw f at e)) (
    Distinct-leave k ch h.conns d,
    AllOpen-other h ch _ (live (leave k ch h.conns)) (leave-gone k ch h.conns d i)
        (All-leave _ k ch h.conns o),
    All-leave _ k ch h.conns b,
  )
  | inr f ↦ absurd (ground (arith, e, f))
]

publish-Sound :
    (k : Bytes) (msg : InAppMessage) (h after : Hub)
    → publish k msg h ≡ some after
    → Sound h
    → Sound after
publish-Sound k msg h after e (d, o, b) =
    let (g, run, conns, next, got) =
      publish-Delivered k msg h (Distinct-members k h.conns d) (All-members _ k h.conns o) in
    subst Sound (some_inj g after (sym run ∙ e)) (
      subst (λ cs. Distinct (live cs)) (sym conns) d,
      subst (λ cs. AllOpen g (live cs)) (sym conns)
          (Delivered-AllOpen msg _ h g (live h.conns) got o),
      subst (λ cs. All (λ c. c < g.next) (live cs)) (sym conns)
          (All-impl _ _ (live h.conns) (λ c l. omega (arith, l, next)) b),
    )

HubStep-Sound : (h i : Hub) → HubStep h i → Sound h → Sound i
HubStep-Sound _ _ (subscribed k h) s = subscribe-Sound k h s
HubStep-Sound _ _ (cancelled k ch h after i e) s = cancel-Sound k ch h after i e s
HubStep-Sound _ _ (published k msg h after e) s = publish-Sound k msg h after e s
HubStep-Sound _ _ (received ch h) (d, o, b) = (d, AllOpen-set_chan h ch _ (live h.conns) refl o, b)

pub HubSteps-Sound : (h i : Hub) → HubSteps h i → Sound h → Sound i
HubSteps-Sound _ _ (stay h) s = s
HubSteps-Sound g i (step {h = h} steps last) s = HubStep-Sound h i last (HubSteps-Sound g h steps s)

-- Whatever was subscribed, cancelled, published and read before, each as one step, on a hub that
-- NewHub made: Publish does not panic, keeps the connections, appends the message to each channel
-- of the key whose buffer has room, and leaves every other channel as it was.
pub HubSteps-publish :
    (size : ℕ) (h : Hub) (k : Bytes) (msg : InAppMessage)
    → HubSteps (new_hub size) h
    → (after : Hub) × (publish k msg h ≡ some after)
      × (after.conns ≡ h.conns)
      × (after.next ≡ h.next)
      × Delivered msg (members k h.conns) h after
unfolding new_hub
HubSteps-publish size h k msg steps =
    let (d, o, b) = HubSteps-Sound (new_hub size) h steps (tt, tt, tt) in
    publish-Delivered k msg h (Distinct-members k h.conns d) (All-members _ k h.conns o)

-- A channel that stands in the set of a key is open.
pub member-open :
    (size : ℕ) (h : Hub) (k : Bytes) (ch : ℕ)
    → HubSteps (new_hub size) h
    → In ch (members k h.conns)
    → (h.channels ch).is_open ≡ true
unfolding new_hub
member-open size h k ch steps i =
    let (d, o, b) = HubSteps-Sound (new_hub size) h steps (tt, tt, tt) in
    In-All (λ c. (h.channels c).is_open ≡ true) ch (live h.conns) o (In-members ch k h.conns i)
