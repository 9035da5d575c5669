-- ===== src/Prelude/Lists.antt =====
-- Lists measured by native numbers, and filtered, searched and updated by Boolean tests.
use Prim.Native.Nat.{ℕ, zero, suc, ◌+◌, ◌≤◌}
use mathlib.Core.Path.{◌≡◌, refl, ap, subst}
use mathlib.Core.Logic.{◌≢◌, inl, inr}
use mathlib.Core.Bool.{Bool, true, false}
use mathlib.Core.List.{List, [], ◌∷◌, ◌++◌, map, Mem, mem-cons_self, mem-cons_of_mem}
use mathlib.Core.Option.{Option, none, some}
use native.Mathlib.Omega.{arith}
use notify_hub.Prelude.Tests.{if◌then◌else◌, Bool-cases}

pub some_inj {ℓ} : {A : Type ℓ} (x y : A) → some x ≡ some y → x ≡ y
some_inj x y h = cc

module _ {ℓ} {A : Type ℓ} where
  abbrev pub length : List A → ℕ
  length [] = 0
  length (x ∷ xs) = suc (length xs)

  abbrev pub take : ℕ → List A → List A
  take zero xs = []
  take (suc n) [] = []
  take (suc n) (x ∷ xs) = x ∷ take n xs

  abbrev pub drop : ℕ → List A → List A
  drop zero xs = xs
  drop (suc n) [] = []
  drop (suc n) (x ∷ xs) = drop n xs

  pub length-append : (xs ys : List A) → length (xs ++ ys) ≡ length xs + length ys
  length-append [] ys = omega arith
  length-append (x ∷ xs) ys = omega (arith, length-append xs ys)

  pub length-take : (n : ℕ) (xs : List A) → length (take n xs) ≤ n
  length-take zero xs = omega arith
  length-take (suc n) [] = omega arith
  length-take (suc n) (x ∷ xs) = omega (arith, length-take n xs)

  -- The rows that pass a test: the WHERE clause of a query.
  abbrev pub filter : (A → Bool) → List A → List A
  filter p [] = []
  filter p (x ∷ xs) = let rest = filter p xs in if p x then x ∷ rest else rest

  -- The first row that passes a test.
  abbrev pub find? : (A → Bool) → List A → Option A
  find? p [] = none
  find? p (x ∷ xs) = let rest = find? p xs in if p x then some x else rest

  -- SET in every row that passes a test.
  abbrev pub update_where : (A → Bool) → (A → A) → List A → List A
  update_where p f [] = []
  update_where p f (x ∷ xs) = (if p x then f x else x) ∷ update_where p f xs

  abbrev pub after : (A → A) → Option A → Option A
  after f none = none
  after f (some x) = some (f x)

  abbrev pub any : (A → Bool) → List A → Bool
  any p [] = false
  any p (x ∷ xs) = let rest = any p xs in if p x then true else rest

  -- Every row satisfies a predicate.
  abbrev pub All {κ} : (A → Type κ) → List A → Type κ
  All P [] = Unit
  All P (x ∷ xs) = P x × All P xs

  pub find?-holds : (p : A → Bool) (xs : List A) (x : A) → find? p xs ≡ some x → p x ≡ true
  find?-holds p [] x h = ground arith
  find?-holds p (y ∷ xs) x h = elim (Bool-cases (p y)) [
    | inl e ↦ rw (← some_inj y x (rw e at h)) e
    | inr e ↦ find?-holds p xs x (rw e at h)
  ]

  pub find?-Mem : (p : A → Bool) (xs : List A) (x : A) → find? p xs ≡ some x → Mem x xs
  find?-Mem p [] x h = absurd (ground (arith, h))
  find?-Mem p (y ∷ xs) x h = elim (Bool-cases (p y)) [
    | inl e ↦ subst (λ z. Mem z (y ∷ xs)) (some_inj y x (rw e at h)) mem-cons_self
    | inr e ↦ mem-cons_of_mem y (find?-Mem p xs x (rw e at h))
  ]

  -- No row passes a test that every row fails.
  pub find?-none : (p : A → Bool) (xs : List A) → All (λ x. p x ≡ false) xs → find? p xs ≡ none
  find?-none p [] h = refl
  find?-none p (x ∷ xs) h = rw (h.0, find?-none p xs h.1)

  -- A weaker test finds something where a stronger one does.
  pub find?-weaken :
      (p q : A → Bool) (xs : List A) (x : A)
      → ((y : A) → p y ≡ true → q y ≡ true)
      → find? p xs ≡ some x
      → find? q xs ≢ none
  find?-weaken p q [] x k h = λ e. ground (arith, h)
  find?-weaken p q (y ∷ xs) x k h = elim (Bool-cases (p y)) [
    | inl e ↦ λ f. ground (arith, f, k y e)
    | inr e ↦ λ f.
        find?-weaken p q xs x k (rw e at h)
          (elim (Bool-cases (q y)) [ inl g ↦ ground (arith, f, g) | inr g ↦ rw g at f ])
  ]

  -- A write to the rows of a test that the write keeps is read back.
  pub find?-update_where :
      (p : A → Bool) (f : A → A) (xs : List A)
      → ((x : A) → p (f x) ≡ p x)
      → find? p (update_where p f xs) ≡ after f (find? p xs)
  find?-update_where p f [] k = refl
  find?-update_where p f (x ∷ xs) k = elim (Bool-cases (p x)) [
    | inl e ↦ rw (e, k x, e)
    | inr e ↦ rw (e, e) (find?-update_where p f xs k)
  ]

  -- Rows that a write of other rows leaves findable are found as the write left them.
  pub find?-update_in :
      (p q : A → Bool) (f : A → A) (xs : List A)
      → ((x : A) → p (f x) ≡ p x)
      → find? p (update_where q f xs) ≡ after (λ x. if q x then f x else x) (find? p xs)
  find?-update_in p q f [] k = refl
  find?-update_in p q f (x ∷ xs) k = elim (Bool-cases (q x)) [
    | inl g ↦ elim (Bool-cases (p x)) [
      | inl e ↦ rw (g, k x, e, g)
      | inr e ↦ rw (g, k x, e) (find?-update_in p q f xs k)
    ]
    | inr g ↦ elim (Bool-cases (p x)) [
      | inl e ↦ rw (g, e, g)
      | inr e ↦ rw (g, e) (find?-update_in p q f xs k)
    ]
  ]

  -- A write to the rows of a test that no row passes.
  pub update_where-none :
      (p : A → Bool) (f : A → A) (xs : List A) → find? p xs ≡ none → update_where p f xs ≡ xs
  update_where-none p f [] h = refl
  update_where-none p f (x ∷ xs) h = elim (Bool-cases (p x)) [
    | inl e ↦ absurd (ground (arith, h, e))
    | inr e ↦ rw e (ap (λ ys. x ∷ ys) (update_where-none p f xs (rw e at h)))
  ]

  pub All-filter {κ} :
      (P : A → Type κ) (p : A → Bool) (xs : List A)
      → ((x : A) → p x ≡ true → P x)
      → All P (filter p xs)
  All-filter P p [] k = tt
  All-filter P p (x ∷ xs) k = elim (Bool-cases (p x)) [
    | inl e ↦ rw e (k x e, All-filter P p xs k)
    | inr e ↦ rw e (All-filter P p xs k)
  ]

  pub All-impl {κ κ'} :
      (P : A → Type κ) (Q : A → Type κ') (xs : List A) → ((x : A) → P x → Q x) → All P xs → All Q xs
  All-impl P Q [] k h = tt
  All-impl P Q (x ∷ xs) k h = (k x h.0, All-impl P Q xs k h.1)

  -- What a search finds has what every row has.
  pub find?-All {κ} :
      (p : A → Bool) (P : A → Type κ) (xs : List A) (x : A) → All P xs → find? p xs ≡ some x → P x
  find?-All p P [] x h e = absurd (ground (arith, e))
  find?-All p P (y ∷ xs) x h e = elim (Bool-cases (p y)) [
    | inl f ↦ subst P (some_inj y x (rw f at e)) h.0
    | inr f ↦ find?-All p P xs x h.1 (rw f at e)
  ]

  pub All-take {κ} : (P : A → Type κ) (n : ℕ) (xs : List A) → All P xs → All P (take n xs)
  All-take P zero xs h = tt
  All-take P (suc n) [] h = tt
  All-take P (suc n) (x ∷ xs) h = (h.0, All-take P n xs h.1)

module _ {ℓ ℓ'} {A : Type ℓ} {B : Type ℓ'} where
  pub length-map : (f : A → B) (xs : List A) → length (map f xs) ≡ length xs
  length-map f [] = refl
  length-map f (x ∷ xs) = omega (arith, length-map f xs)

  pub All-map {κ} :
      (P : B → Type κ) (f : A → B) (xs : List A) → All (λ x. P (f x)) xs → All P (map f xs)
  All-map P f [] h = tt
  All-map P f (x ∷ xs) h = (h.0, All-map P f xs h.1)
