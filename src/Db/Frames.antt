-- ===== src/Db/Frames.antt =====
-- The world that a query leaves behind, whatever it answers; and what must have come before an
-- answer that is no error.
use notify_hub.Prelude.{
  suc, false, Option, some, Option-cases, Bool-cases, List, ap, arith, inl, inr, ◌≡◌, refl, ◌∙◌,
}
use notify_hub.Domain.Errors.{Err, Result, ok, err}
use notify_hub.Db.World.{World, Env}
use notify_hub.Db.Io.{
  Io, pure, continue, ◌>>=◌, on_err, map_err, query_one, query_insert, query_many, query_checked,
}

pub ok_inj : {A : Type 0} (x y : A) → ok x ≡ ok y → x ≡ y
ok_inj x y h = cc

module _ {A B : Type 0} where
  continue-pure-world :
      (f : A → B) (r : Result A) (w : World) → (continue (λ a. pure (f a)) r w).1 ≡ w
  continue-pure-world f (ok a) w = refl
  continue-pure-world f (err e) w = refl

  -- A conversion of the row does not touch the world.
  pub pure-world : (f : A → B) (m : Io A) (w : World) → ((m >>= λ a. pure (f a)) w).1 ≡ (m w).1
  pure-world f m w = continue-pure-world f (m w).0 (m w).1

module _ {A B : Type 0} where
  continue-ok :
      (k : A → Io B) (r : Result A) (w : World) (b : B)
      → (continue k r w).0 ≡ ok b
      → (a : A) × (r ≡ ok a) × ((k a w).0 ≡ ok b)
  continue-ok k (ok a) w b h = (a, refl, h)
  continue-ok k (err e) w b h = absurd (ground (arith, h))

  pub bind-ok :
      (m : Io A) (k : A → Io B) (w : World) (b : B)
      → ((m >>= k) w).0 ≡ ok b
      → (a : A) × ((m w).0 ≡ ok a) × ((k a (m w).1).0 ≡ ok b)
  bind-ok m k w b h = continue-ok k (m w).0 (m w).1 b h

module _ {A : Type 0} where
  on_err-ok : (f : Err → Err) (r : Result A) (a : A) → on_err f r ≡ ok a → r ≡ ok a
  on_err-ok f (ok b) a h = h
  on_err-ok f (err e) a h = absurd (ground (arith, h))

  pub map_err-ok :
      (f : Err → Err) (m : Io A) (w : World) (a : A) → (map_err f m w).0 ≡ ok a → (m w).0 ≡ ok a
  map_err-ok f m w a h = on_err-ok f (m w).0 a h

  pub query_checked-ok :
      (env : Env) (q : World → Option (List A)) (w : World) (rows : List A)
      → (query_checked env q w).0 ≡ ok rows
      → q w ≡ some rows
  unfolding query_checked
  query_checked-ok env q w rows h = elim (Bool-cases (env.faults w.calls)) [
    | inl e ↦ absurd (ground (arith, h, e))
    | inr e ↦ elim (Option-cases (q w)) [
      | inl f ↦ absurd (ground (arith, h, e, f))
      | inr (rs, f) ↦ f ∙ ap some (ok_inj rs rows (rw (e, f) at h))
    ]
  ]

  pub query_many-ok :
      (env : Env) (q : World → List A) (w : World) (rows : List A)
      → (query_many env q w).0 ≡ ok rows
      → q w ≡ rows
  unfolding query_many
  query_many-ok env q w rows h = elim (Bool-cases (env.faults w.calls)) [
    | inl e ↦ absurd (ground (arith, h, e))
    | inr e ↦ ok_inj (q w) rows (rw e at h)
  ]

module _ {A : Type 0} (env : Env) (q : World → Option A × World) (w : World) where
  abbrev called : World
  called = record w { calls = suc w.calls }

  pub query_one-world : env.faults w.calls ≡ false → (query_one env q w).1 ≡ (q called).1
  unfolding query_one
  query_one-world up = elim (Option-cases (q called).0) [
    | inl e ↦ rw (up, e) refl
    | inr (a, e) ↦ rw (up, e) refl
  ]

  pub query_insert-world : env.faults w.calls ≡ false → (query_insert env q w).1 ≡ (q called).1
  unfolding query_insert
  query_insert-world up = elim (Option-cases (q called).0) [
    | inl e ↦ rw (up, e) refl
    | inr (a, e) ↦ rw (up, e) refl
  ]
