-- ===== src/Db/Io.antt =====
-- Fallible actions on the world, and the three ways in which a query reaches the database.
use notify_hub.Prelude.{ℕ, suc, false, Option, none, some, List, ◌≡◌, if◌then◌else◌}
use notify_hub.Domain.Errors.{Err, plain, no_rows, Result, ok, err}
use notify_hub.Db.World.{World, Env}

abbrev pub Io : Type 0 → Type 0
Io A = World → Result A × World

abbrev pub pure : {A : Type 0} → A → Io A
pure a w = (ok a, w)

abbrev pub fail : {A : Type 0} → Err → Io A
fail e w = (err e, w)

abbrev pub continue : {A B : Type 0} → (A → Io B) → Result A → Io B
continue f (ok a) w = f a w
continue f (err e) w = (err e, w)

infixl 5 ◌>>=◌ ◌>>◌
abbrev pub ◌>>=◌ : {A B : Type 0} → Io A → (A → Io B) → Io B
◌>>=◌ m f w = let r = m w in continue f r.0 r.1

abbrev pub ◌>>◌ : {A B : Type 0} → Io A → Io B → Io B
m >> k = m >>= λ _. k

-- `if err != nil { log }`: the error is a value, and the code goes on.
abbrev pub attempt : {A : Type 0} → Io A → Io (Result A)
attempt m w = let r = m w in (ok r.0, r.1)

-- The error handler of an `if err != nil { return nil, f(err) }`.
abbrev pub on_err : {A : Type 0} → (Err → Err) → Result A → Result A
on_err f (ok a) = ok a
on_err f (err e) = err (f e)

abbrev pub map_err : {A : Type 0} → (Err → Err) → Io A → Io A
map_err f m w = let r = m w in (on_err f r.0, r.1)

abbrev pub gets : {A : Type 0} → (World → A) → Io A
gets f w = (ok (f w), w)

-- Every call of the infrastructure goes through here.
module _ (env : Env) where
  unfoldable pub reach : Io (Unit {0})
  reach w = (
    if env.faults w.calls then err (plain "connection refused") else ok tt,
    record w { calls = suc w.calls },
  )

  -- A :one query, which returns a row and may write.
  unfoldable pub query_one : {A : Type 0} → (World → Option A × World) → Io A
  query_one q w =
      let r = q (record w { calls = suc w.calls }) in
      if env.faults w.calls
      then (err (plain "connection refused"), record w { calls = suc w.calls })
      else elim r.0 [ none ↦ (err no_rows, r.1) | some a ↦ (ok a, r.1) ]

  -- An INSERT … RETURNING * whose `none` is the violation of a constraint.
  unfoldable pub query_insert : {A : Type 0} → (World → Option A × World) → Io A
  query_insert q w =
      let r = q (record w { calls = suc w.calls }) in
      if env.faults w.calls
      then (err (plain "connection refused"), record w { calls = suc w.calls })
      else elim r.0 [ none ↦ (err (plain "duplicate key value"), r.1) | some a ↦ (ok a, r.1) ]

  -- A :many query.
  unfoldable pub query_many : {A : Type 0} → (World → List A) → Io (List A)
  query_many q w =
      if env.faults w.calls
      then (err (plain "connection refused"), record w { calls = suc w.calls })
      else (ok (q w), record w { calls = suc w.calls })

  -- A :many query that PostgreSQL may refuse for the values of its parameters.
  unfoldable pub query_checked : {A : Type 0} → (World → Option (List A)) → Io (List A)
  query_checked q w =
      if env.faults w.calls
      then (err (plain "connection refused"), record w { calls = suc w.calls })
      else (
        elim (q w) [
          | none ↦ err (plain "LIMIT or OFFSET must not be negative")
          | some rows ↦ ok rows
        ],
        record w { calls = suc w.calls },
      )

  -- An :exec query.
  unfoldable pub exec : (World → World) → Io (Unit {0})
  exec q w =
      if env.faults w.calls
      then (err (plain "connection refused"), record w { calls = suc w.calls })
      else (ok tt, q (record w { calls = suc w.calls }))

-- No call fails and no context is done.
abbrev pub IsHealthy : Env → Type 0
IsHealthy env = (n : ℕ) → env.faults n ≡ false
