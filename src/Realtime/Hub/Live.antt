-- ===== src/Realtime/Hub/Live.antt =====
-- internal/realtime/hub.go: the channels that stand in the map of connections.
use notify_hub.Prelude.{
  ℕ, true, not, List, [], ◌∷◌, ◌++◌, ◌≡◌, ◌≢◌, refl, sym, arith, any, filter, All, All-impl, ◌==◌,
  nat_eq, Bool-cases, inl, inr,
}
use notify_hub.Realtime.Channels.{Bytes}
use notify_hub.Realtime.Hub.{Conns, same_bytes, members, join, kept, leave}
use notify_hub.Realtime.Hub.Delivery.{Distinct}

-- All channels of a map.
abbrev pub live : Conns → List ℕ
live [] = []
live ((j, set) ∷ conns) = set ++ live conns

abbrev pub In : ℕ → List ℕ → Type 0
In ch cs = any (λ c. c == ch) cs ≡ true

module _ (P : ℕ → Type 0) where
  pub All-append : (a b : List ℕ) → All P a → All P b → All P (a ++ b)
  All-append [] b h k = k
  All-append (x ∷ a) b h k = (h.0, All-append a b h.1 k)

  pub All-left : (a b : List ℕ) → All P (a ++ b) → All P a
  All-left [] b h = tt
  All-left (x ∷ a) b h = (h.0, All-left a b h.1)

  pub All-right : (a b : List ℕ) → All P (a ++ b) → All P b
  All-right [] b h = h
  All-right (x ∷ a) b h = All-right a b h.1

  pub All-remove : (ch : ℕ) (cs : List ℕ) → All P cs → All P (filter (λ c. not (c == ch)) cs)
  All-remove ch [] h = tt
  All-remove ch (c ∷ cs) h = elim (Bool-cases (c == ch)) [
    | inl e ↦ rw e (All-remove ch cs h.1)
    | inr e ↦ rw e (h.0, All-remove ch cs h.1)
  ]

  pub All-members : (k : Bytes) (conns : Conns) → All P (live conns) → All P (members k conns)
  All-members k [] h = tt
  All-members k ((j, set) ∷ conns) h = elim (Bool-cases (same_bytes j k)) [
    | inl e ↦ rw e (All-left set (live conns) h)
    | inr e ↦ rw e (All-members k conns (All-right set (live conns) h))
  ]

  pub All-join :
      (k : Bytes) (ch : ℕ) (conns : Conns)
      → All P (live conns)
      → P ch
      → All P (live (join k ch conns))
  All-join k ch [] h p = (p, tt)
  All-join k ch ((j, set) ∷ conns) h p = elim (Bool-cases (same_bytes j k)) [
    | inl e ↦ rw e (p, h)
    | inr e ↦ rw e (
        All-append set (live (join k ch conns)) (All-left set (live conns) h)
          (All-join k ch conns (All-right set (live conns) h) p))
  ]

  All-kept :
      (j : Bytes) (set : List ℕ) (conns : Conns)
      → All P (set ++ live conns)
      → All P (live (kept j set conns))
  All-kept j [] conns h = h
  All-kept j (c ∷ set) conns h = h

  pub All-leave :
      (k : Bytes) (ch : ℕ) (conns : Conns) → All P (live conns) → All P (live (leave k ch conns))
  All-leave k ch [] h = tt
  All-leave k ch ((j, set) ∷ conns) h = elim (Bool-cases (same_bytes j k)) [
    | inl e ↦ rw e (
        All-kept j (filter (λ c. not (c == ch)) set) conns (
          All-append (filter (λ c. not (c == ch)) set) (live conns)
            (All-remove ch set (All-left set (live conns) h)) (All-right set (live conns) h)))
    | inr e ↦ rw e (
        All-append set (live (leave k ch conns)) (All-left set (live conns) h)
          (All-leave k ch conns (All-right set (live conns) h)))
  ]

Distinct-left : (a b : List ℕ) → Distinct (a ++ b) → Distinct a
Distinct-left [] b d = tt
Distinct-left (x ∷ a) b d = (All-left _ a b d.0, Distinct-left a b d.1)

pub Distinct-right : (a b : List ℕ) → Distinct (a ++ b) → Distinct b
Distinct-right [] b d = d
Distinct-right (x ∷ a) b d = Distinct-right a b d.1

pub Distinct-members :
    (k : Bytes) (conns : Conns) → Distinct (live conns) → Distinct (members k conns)
Distinct-members k [] d = tt
Distinct-members k ((j, set) ∷ conns) d = elim (Bool-cases (same_bytes j k)) [
  | inl e ↦ rw e (Distinct-left set (live conns) d)
  | inr e ↦ rw e (Distinct-members k conns (Distinct-right set (live conns) d))
]

-- A new tail: what every entry of the old tail has, and `ch` has, every entry of it has.
Distinct-tail :
    (set xs ys : List ℕ) (ch : ℕ)
    → ((P : ℕ → Type 0) → All P xs → P ch → All P ys)
    → All (λ c. c ≢ ch) set
    → Distinct ys
    → Distinct (set ++ xs)
    → Distinct (set ++ ys)
Distinct-tail [] xs ys ch k a e d = e
Distinct-tail (c ∷ set) xs ys ch k a e d = (
  All-append _ set ys (All-left _ set xs d.0) (k (λ x. c ≢ x) (All-right _ set xs d.0) a.0),
  Distinct-tail set xs ys ch k a.1 e d.1,
)

Distinct-shorter :
    (set xs ys : List ℕ)
    → ((P : ℕ → Type 0) → All P xs → All P ys)
    → Distinct ys
    → Distinct (set ++ xs)
    → Distinct (set ++ ys)
Distinct-shorter [] xs ys k e d = e
Distinct-shorter (c ∷ set) xs ys k e d = (
  All-append _ set ys (All-left _ set xs d.0) (k (λ x. c ≢ x) (All-right _ set xs d.0)),
  Distinct-shorter set xs ys k e d.1,
)

pub Distinct-join :
    (k : Bytes) (ch : ℕ) (conns : Conns)
    → All (λ c. c ≢ ch) (live conns)
    → Distinct (live conns)
    → Distinct (live (join k ch conns))
Distinct-join k ch [] a d = (tt, tt)
Distinct-join k ch ((j, set) ∷ conns) a d = elim (Bool-cases (same_bytes j k)) [
  | inl e ↦ rw e (All-impl _ _ (set ++ live conns) (λ c n q. n (sym q)) a, d)
  | inr e ↦ rw e (
      Distinct-tail set (live conns) (live (join k ch conns)) ch
        (λ P h p. All-join P k ch conns h p) (All-left _ set (live conns) a)
        (Distinct-join k ch conns (All-right _ set (live conns) a)
          (Distinct-right set (live conns) d))
        d)
]

pub any-left : (ch : ℕ) (a b : List ℕ) → In ch a → In ch (a ++ b)
any-left ch [] b i = absurd (ground (arith, i))
any-left ch (c ∷ a) b i = elim (Bool-cases (c == ch)) [
  | inl e ↦ rw e refl
  | inr e ↦ rw e (any-left ch a b (rw e at i))
]

pub any-right : (ch : ℕ) (a b : List ℕ) → In ch b → In ch (a ++ b)
any-right ch [] b i = i
any-right ch (c ∷ a) b i = elim (Bool-cases (c == ch)) [
  | inl e ↦ rw e refl
  | inr e ↦ rw e (any-right ch a b i)
]

Distinct-remove :
    (ch : ℕ) (set xs : List ℕ)
    → Distinct (set ++ xs)
    → Distinct (filter (λ c. not (c == ch)) set ++ xs)
Distinct-remove ch [] xs d = d
Distinct-remove ch (c ∷ set) xs d = elim (Bool-cases (c == ch)) [
  | inl e ↦ rw e (Distinct-remove ch set xs d.1)
  | inr e ↦ rw e (
    All-append _ (filter (λ c. not (c == ch)) set) xs (All-remove _ ch set (All-left _ set xs d.0))
        (All-right _ set xs d.0),
    Distinct-remove ch set xs d.1,
  )
]

Distinct-kept :
    (j : Bytes) (set : List ℕ) (conns : Conns)
    → Distinct (set ++ live conns)
    → Distinct (live (kept j set conns))
Distinct-kept j [] conns d = d
Distinct-kept j (c ∷ set) conns d = d

pub Distinct-leave :
    (k : Bytes) (ch : ℕ) (conns : Conns)
    → Distinct (live conns)
    → Distinct (live (leave k ch conns))
Distinct-leave k ch [] d = tt
Distinct-leave k ch ((j, set) ∷ conns) d = elim (Bool-cases (same_bytes j k)) [
  | inl e ↦ rw e (Distinct-kept j _ conns (Distinct-remove ch set (live conns) d))
  | inr e ↦ rw e (
      Distinct-shorter set (live conns) (live (leave k ch conns)) (λ P h. All-leave P k ch conns h)
        (Distinct-leave k ch conns (Distinct-right set (live conns) d)) d)
]
