-- ===== src/Realtime/Hub/Races.antt =====
-- internal/realtime/hub.go: Publish reads the set of a key under the lock and sends to its channels
-- after the unlock; cancel may run in between.
use notify_hub.Prelude.{
  ℕ, false, none, some, ◌≡◌, refl, subst, some_inj, arith, nat_eq, beq_refl, Bool-cases, inl, inr,
}
use notify_hub.Realtime.Channels.{Bytes}
use notify_hub.Realtime.Hub.{Hub, cancel}

cancel-closes :
    (k : Bytes) (ch : ℕ) (h after : Hub)
    → cancel k ch h ≡ some after
    → (after.channels ch).is_open ≡ false
unfolding cancel
cancel-closes k ch h after e = elim (Bool-cases (h.channels ch).is_open) [
  | inl f ↦
      subst (λ g. (g.channels ch).is_open ≡ false) (some_inj _ after (rw f at e))
        (rw (beq_refl ch) refl)
  | inr f ↦ absurd (ground (arith, e, f))
]

-- A second cancel panics.
cancel-cancelled :
    (k : Bytes) (ch : ℕ) (h after : Hub) → cancel k ch h ≡ some after → cancel k ch after ≡ none
unfolding cancel
cancel-cancelled k ch h after e = rw (cancel-closes k ch h after e) refl
