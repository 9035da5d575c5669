-- ===== src/Service/RateLimit.antt =====
-- internal/service/ratelimit.go: a sliding window log in a Redis sorted set. A set is the list of
-- its scores, newest first; score and member are the same float64, so equal scores are one
-- element. `score` is the rounding of nanoseconds to float64, done by Go for the score and by
-- Redis for the bound of the window. The four commands run in one transaction.
pub mod Window
use Prim.Native.String.{◌++◌}
use notify_hub.Prelude.{
  ℕ, suc, ◌-◌, String, Bool, List, ◌∷◌, any, filter, length, ltb, ◌==◌, nat_eq, string_eq,
  if◌then◌else◌,
}
use notify_hub.Domain.Errors.{plain, wrapped, ok, err}
use notify_hub.Domain.Notification.{Time, Channel}
use notify_hub.Db.World.{Env}
use notify_hub.Db.Io.{Io}

-- ZREMRANGEBYSCORE key -inf bound
abbrev pub evict : ℕ → List ℕ → List ℕ
evict bound set = filter (λ s. ltb bound s) set

-- ZADD of a member that is its own score.
abbrev pub zadd : ℕ → List ℕ → List ℕ
zadd s set = if any (λ t. t == s) set then set else s ∷ set

abbrev pub put_set : String → List ℕ → (String → List ℕ) → String → List ℕ
put_set key set sets k = if k == key then set else sets k

-- One attempt at `now`: the new set, and the count before it.
unfoldable pub record_attempt : (ℕ → ℕ) → ℕ → Time → List ℕ → List ℕ × ℕ
record_attempt score window now set =
    let kept = evict (score (now - window)) set in (zadd (score now) kept, length kept)

module _ (score : ℕ → ℕ) (env : Env) where
  unfoldable pub allow_key : String → ℕ → ℕ → Io Bool
  unfolding record_attempt
  allow_key key window cap w =
      let r = record_attempt score window w.now (w.sorted_sets key) in
      if env.faults w.calls
      then (
        err (wrapped "ratelimit pipeline" (plain "connection refused")),
        record w { calls = suc w.calls },
      )
      else (
        ok (ltb r.1 cap),
        record w { calls = suc w.calls; sorted_sets = put_set key r.0 w.sorted_sets },
      )

  unfoldable pub allow : String → Channel → ℕ → ℕ → Io Bool
  unfolding allow_key
  allow user channel window cap = allow_key ("ratelimit:" ++ (user ++ (":" ++ channel))) window cap
