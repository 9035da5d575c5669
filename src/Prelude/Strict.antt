-- ===== src/Prelude/Strict.antt =====
-- Lists that a strict order sorts, and what a filter keeps of them.
use mathlib.Core.Path.{◌≡◌, refl, sym, ap, subst, ◌∙◌}
use mathlib.Core.Bool.{Bool, true, false, ◌&&◌}
use mathlib.Core.Logic.{◌⊎◌, inl, inr}
use mathlib.Core.List.{List, [], ◌∷◌, ◌++◌}
use native.Mathlib.Omega.{arith}
use notify_hub.Prelude.Tests.{Bool-cases}
use notify_hub.Prelude.Lists.{All, All-impl, filter}
use notify_hub.Prelude.Sorting.{insert_by, sort_by, All-insert_by, All-sort_by}

module _ {A : Type 0} where
  pub filter-&& :
      (p q : A → Bool) (xs : List A) → filter (λ x. p x && q x) xs ≡ filter q (filter p xs)
  filter-&& p q [] = refl
  filter-&& p q (x ∷ xs) = elim (Bool-cases (p x)) [
    | inl e ↦ elim (Bool-cases (q x)) [
      | inl f ↦ rw (e, f) (ap (λ zs. x ∷ zs) (filter-&& p q xs))
      | inr f ↦ rw (e, f) (filter-&& p q xs)
    ]
    | inr e ↦ rw e (filter-&& p q xs)
  ]

  filter_keeps : (p : A → Bool) (xs : List A) → All (λ x. p x ≡ true) xs → filter p xs ≡ xs
  filter_keeps p [] h = refl
  filter_keeps p (x ∷ xs) h = rw h.0 (ap (λ zs. x ∷ zs) (filter_keeps p xs h.1))

  All-kept {κ} : (p : A → Bool) (P : A → Type κ) (xs : List A) → All P xs → All P (filter p xs)
  All-kept p P [] h = tt
  All-kept p P (x ∷ xs) h = elim (Bool-cases (p x)) [
    | inl e ↦ rw e (h.0, All-kept p P xs h.1)
    | inr e ↦ rw e (All-kept p P xs h.1)
  ]

  All-middle {κ} : (P : A → Type κ) (xs : List A) (c : A) (ys : List A) → All P (xs ++ c ∷ ys) → P c
  All-middle P [] c ys h = h.0
  All-middle P (x ∷ xs) c ys h = All-middle P xs c ys h.1

  module _ (before : A → A → Bool) where
    -- Each entry comes before all that follow it.
    abbrev pub Sorted : List A → Type 0
    Sorted [] = Unit
    Sorted (x ∷ xs) = All (λ y. before x y ≡ true) xs × Sorted xs

    abbrev pub Apart : A → A → Type 0
    Apart x y = (before x y ≡ true) ⊎ (before y x ≡ true)

    -- The order tells any two entries apart.
    abbrev pub AllApart : List A → Type 0
    AllApart [] = Unit
    AllApart (x ∷ xs) = All (Apart x) xs × AllApart xs

    AllApart-filter : (p : A → Bool) (xs : List A) → AllApart xs → AllApart (filter p xs)
    AllApart-filter p [] a = tt
    AllApart-filter p (x ∷ xs) a = elim (Bool-cases (p x)) [
      | inl e ↦ rw e (All-kept p (Apart x) xs a.0, AllApart-filter p xs a.1)
      | inr e ↦ rw e (AllApart-filter p xs a.1)
    ]

    filter-insert_by-dropped :
        (p : A → Bool) (x : A) (ys : List A)
        → p x ≡ false
        → filter p (insert_by before x ys) ≡ filter p ys
    unfolding insert_by
    filter-insert_by-dropped p x [] k = rw k refl
    filter-insert_by-dropped p x (y ∷ ys) k = elim (Bool-cases (before y x)) [
      | inl e ↦ elim (Bool-cases (p y)) [
        | inl f ↦ rw (e, f) (ap (λ zs. y ∷ zs) (filter-insert_by-dropped p x ys k))
        | inr f ↦ rw (e, f) (filter-insert_by-dropped p x ys k)
      ]
      | inr e ↦ rw (e, k) refl
    ]

    ahead : (x y : A) → Apart x y → before y x ≡ false → before x y ≡ true
    ahead x y (inl h) e = h
    ahead x y (inr h) e = absurd (ground (arith, h, e))

    insert_by-front :
        (x : A) (ys : List A) → All (λ y. before y x ≡ false) ys → insert_by before x ys ≡ x ∷ ys
    unfolding insert_by
    insert_by-front x [] h = refl
    insert_by-front x (y ∷ ys) h = rw h.0 refl

    module _ (trans : (x y z : A) → before x y ≡ true → before y z ≡ true → before x z ≡ true)
        (asym : (x y : A) → before x y ≡ true → before y x ≡ false) where
      insert_by-Sorted :
          (x : A) (ys : List A) → All (Apart x) ys → Sorted ys → Sorted (insert_by before x ys)
      unfolding insert_by
      insert_by-Sorted x [] a h = (tt, tt)
      insert_by-Sorted x (y ∷ ys) a h = elim (Bool-cases (before y x)) [
        | inl e ↦ rw e (
          All-insert_by before (λ z. before y z ≡ true) x ys e h.0,
          insert_by-Sorted x ys a.1 h.1,
        )
        | inr e ↦
            let f = ahead x y a.0 e in rw e ((f, All-impl _ _ ys (λ z g. trans x y z f g) h.0), h)
      ]

      pub sort_by-Sorted : (xs : List A) → AllApart xs → Sorted (sort_by before xs)
      unfolding sort_by
      sort_by-Sorted [] a = tt
      sort_by-Sorted (x ∷ xs) a =
          insert_by-Sorted x (sort_by before xs) (All-sort_by before (Apart x) xs a.0)
            (sort_by-Sorted xs a.1)

      filter-insert_by-kept :
          (p : A → Bool) (x : A) (ys : List A)
          → p x ≡ true
          → All (Apart x) ys
          → Sorted ys
          → filter p (insert_by before x ys) ≡ insert_by before x (filter p ys)
      unfolding insert_by
      filter-insert_by-kept p x [] k a h = rw k refl
      filter-insert_by-kept p x (y ∷ ys) k a h = elim (Bool-cases (before y x)) [
        | inl e ↦ elim (Bool-cases (p y)) [
          | inl f ↦ rw (e, f, e) (ap (λ zs. y ∷ zs) (filter-insert_by-kept p x ys k a.1 h.1))
          | inr f ↦ rw (e, f) (filter-insert_by-kept p x ys k a.1 h.1)
        ]
        | inr e ↦
            let f = ahead x y a.0 e in
            let g = All-impl _ _ ys (λ z g. asym x z (trans x y z f g)) h.0 in
            rw (e, k) (sym (insert_by-front x (filter p (y ∷ ys)) (All-kept p _ (y ∷ ys) (e, g))))
      ]

      -- A filter of a sorted list is the sorted list of what it keeps.
      pub filter-sort_by :
          (p : A → Bool) (xs : List A)
          → AllApart xs
          → filter p (sort_by before xs) ≡ sort_by before (filter p xs)
      unfolding sort_by
      filter-sort_by p [] a = refl
      filter-sort_by p (x ∷ xs) a =
          let s = sort_by-Sorted xs a.1 in
          let b = All-sort_by before (Apart x) xs a.0 in
          elim (Bool-cases (p x)) [
            | inl e ↦ rw e (
                filter-insert_by-kept p x (sort_by before xs) e b s
                ∙ ap (insert_by before x) (filter-sort_by p xs a.1))
            | inr e ↦
                rw e (filter-insert_by-dropped p x (sort_by before xs) e ∙ filter-sort_by p xs a.1)
          ]

      -- What comes after an entry of a sorted list is all that follows it.
      pub filter-behind :
          (xs : List A) (c : A) (ys : List A)
          → Sorted (xs ++ c ∷ ys)
          → filter (before c) (xs ++ c ∷ ys) ≡ ys
      filter-behind [] c ys h = elim (Bool-cases (before c c)) [
        | inl e ↦ absurd (ground (arith, e, asym c c e))
        | inr e ↦ rw e (filter_keeps (before c) ys h.0)
      ]
      filter-behind (x ∷ xs) c ys h =
          rw (asym x c (All-middle _ xs c ys h.0)) (filter-behind xs c ys h.1)

      -- The entries that a filter keeps of a sorted list, after one of them.
      pub filter-page :
          (p : A → Bool) (c : A) (xs ys zs : List A)
          → AllApart zs
          → sort_by before (filter p zs) ≡ xs ++ c ∷ ys
          → sort_by before (filter (λ x. p x && before c x) zs) ≡ ys
      filter-page p c xs ys zs a h =
          let b = AllApart-filter p zs a in
          ap (sort_by before) (filter-&& p (before c) zs)
          ∙ sym (filter-sort_by (before c) (filter p zs) b)
          ∙ ap (filter (before c)) h
          ∙ filter-behind xs c ys (subst Sorted h (sort_by-Sorted (filter p zs) b))
