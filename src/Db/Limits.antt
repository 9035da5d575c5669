-- ===== src/Db/Limits.antt =====
-- internal/db: the parameters of LIMIT and OFFSET, which are of type int32. PostgreSQL refuses a
-- negative one.
use notify_hub.Prelude.{
  ℕ, ◌≤◌, ◌<◌, ◌≡◌, arith, Option, none, some, List, take, drop, ltb, ◌%◌, ◌^◌, if◌then◌else◌,
}

-- int32(n), none where it is negative.
abbrev pub int32 : ℕ → Option ℕ
int32 n = let m = n % 2 ^ 32 in if ltb m (2 ^ 31) then some m else none

pub int32-le : (n m : ℕ) → int32 n ≡ some m → m ≤ n
int32-le n m h = ground (arith, h)

pub int32-small : (n : ℕ) → n < 2 ^ 31 → int32 n ≡ some n
int32-small n h = ground (arith, h)

abbrev pub limited : {A : Type 0} → Option ℕ → List A → Option (List A)
limited none rows = none
limited (some n) rows = some (take n rows)

abbrev pub offset_by : {A : Type 0} → Option ℕ → Option ℕ → List A → Option (List A)
offset_by none limit rows = none
offset_by (some k) limit rows = limited limit (drop k rows)
