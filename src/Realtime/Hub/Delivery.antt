-- ===== src/Realtime/Hub/Delivery.antt =====
-- internal/realtime/hub.go: what Publish does to the channels, where nothing comes in between.
use notify_hub.Prelude.{
  ℕ, true, false, some, List, [], ◌∷◌, ◌≡◌, ◌≢◌, refl, sym, subst, ap, ◌∙◌, arith, any, All,
  All-impl, ◌==◌, nat_eq, nat_beq_iff, beq_refl, Bool-cases, inl, inr, if◌then◌else◌,
}
use notify_hub.Domain.InApp.{InAppMessage}
use notify_hub.Realtime.Channels.{Bytes}
use notify_hub.Realtime.Hub.{Hub, Chan, members, offered, send, send_all, publish}

-- A set of channels: no channel stands in it twice.
abbrev pub Distinct : List ℕ → Type 0
Distinct [] = Unit
Distinct (c ∷ cs) = All (λ d. c ≢ d) cs × Distinct cs

abbrev pub AllOpen : Hub → List ℕ → Type 0
AllOpen h cs = All (λ c. (h.channels c).is_open ≡ true) cs

-- The channels of a list were offered the message, and no other channel was touched.
abbrev pub Delivered : InAppMessage → List ℕ → Hub → Hub → Type 0
Delivered msg cs h after =
    (ch : ℕ)
    → after.channels ch
      ≡ (if any (λ c. c == ch) cs then offered h.buf_size msg (h.channels ch) else h.channels ch)

pub offered-open :
    (size : ℕ) (msg : InAppMessage) (c : Chan) → (offered size msg c).is_open ≡ c.is_open
offered-open size msg c = ground arith

-- The hub after one send.
abbrev offer : InAppMessage → ℕ → Hub → Hub
offer msg ch h = record h {
  channels = λ c. if c == ch then offered h.buf_size msg (h.channels ch) else h.channels c;
}

send-open :
    (msg : InAppMessage) (ch : ℕ) (h : Hub)
    → (h.channels ch).is_open ≡ true
    → send msg ch h ≡ some (offer msg ch h)
unfolding send
send-open msg ch h e = rw e refl

offer-AllOpen :
    (msg : InAppMessage) (ch : ℕ) (h : Hub) (cs : List ℕ)
    → AllOpen h cs
    → (h.channels ch).is_open ≡ true
    → AllOpen (offer msg ch h) cs
offer-AllOpen msg ch h cs a o =
    All-impl _ _ cs
      (λ c b. elim (Bool-cases (c == ch)) [
        | inl e ↦ rw e (offered-open h.buf_size msg (h.channels ch) ∙ o)
        | inr e ↦ rw e b
      ])
      a

flip : (c d : ℕ) → (c == d) ≡ false → (d == c) ≡ false
flip c d h = ground (arith, h)

any-absent : (c : ℕ) (cs : List ℕ) → All (λ d. c ≢ d) cs → any (λ d. d == c) cs ≡ false
any-absent c [] h = refl
any-absent c (d ∷ cs) h = elim (Bool-cases (d == c)) [
  | inl e ↦ absurd (h.0 (sym ((nat_beq_iff d c).0 e)))
  | inr e ↦ rw e (any-absent c cs h.1)
]

-- Offering to a first channel and then to the others is offering to all.
offer-step :
    (msg : InAppMessage) (c : ℕ) (cs : List ℕ) (h : Hub)
    → All (λ d. c ≢ d) cs
    → (ch : ℕ)
    → (if any (λ d. d == ch) cs
        then offered h.buf_size msg ((offer msg c h).channels ch)
        else (offer msg c h).channels ch)
      ≡ (if any (λ d. d == ch) (c ∷ cs)
          then offered h.buf_size msg (h.channels ch)
          else h.channels ch)
offer-step msg c cs h d ch = elim (Bool-cases (c == ch)) [
  | inl e ↦
      subst
        (λ x.
          (if any (λ d. d == x) cs
            then offered h.buf_size msg ((offer msg c h).channels x)
            else (offer msg c h).channels x)
          ≡ (if any (λ d. d == x) (c ∷ cs)
              then offered h.buf_size msg (h.channels x)
              else h.channels x))
        ((nat_beq_iff c ch).0 e) (rw (any-absent c cs d, beq_refl c) refl)
  | inr e ↦ rw (e, flip c ch e) refl
]

-- A delivery opens and closes nothing.
pub Delivered-AllOpen :
    (msg : InAppMessage) (cs : List ℕ) (h after : Hub) (ds : List ℕ)
    → Delivered msg cs h after
    → AllOpen h ds
    → AllOpen after ds
Delivered-AllOpen msg cs h after ds got a =
    All-impl _ _ ds
      (λ c o. elim (Bool-cases (any (λ d. d == c) cs)) [
        | inl e ↦
            ap (λ x. x.is_open) (got c) ∙ rw e (offered-open h.buf_size msg (h.channels c) ∙ o)
        | inr e ↦ ap (λ x. x.is_open) (got c) ∙ rw e o
      ])
      a

send_all-Delivered :
    (msg : InAppMessage) (cs : List ℕ) (h : Hub)
    → Distinct cs
    → AllOpen h cs
    → (after : Hub) × (send_all msg cs h ≡ some after)
      × (after.conns ≡ h.conns)
      × (after.next ≡ h.next)
      × Delivered msg cs h after
unfolding send_all
send_all-Delivered msg [] h d o = (h, refl, refl, refl, λ ch. refl)
send_all-Delivered msg (c ∷ cs) h d o =
    let (after, run, conns, next, got) =
      send_all-Delivered msg cs (offer msg c h) d.1 (offer-AllOpen msg c h cs o.1 o.0) in
    (
      after,
      rw (send-open msg c h o.0) run,
      conns,
      next,
      λ ch. got ch ∙ offer-step msg c cs h d.0 ch,
    )

-- Where the channels of a key are open and no channel stands twice among them, and nothing comes
-- in between: Publish does not panic, keeps the connections, appends the message to each channel of
-- the key whose buffer has room, and leaves every other channel as it was.
pub publish-Delivered :
    (k : Bytes) (msg : InAppMessage) (h : Hub)
    → Distinct (members k h.conns)
    → AllOpen h (members k h.conns)
    → (after : Hub) × (publish k msg h ≡ some after)
      × (after.conns ≡ h.conns)
      × (after.next ≡ h.next)
      × Delivered msg (members k h.conns) h after
unfolding publish
publish-Delivered k msg h d o = send_all-Delivered msg (members k h.conns) h d o
