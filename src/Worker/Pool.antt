-- ===== src/Worker/Pool.antt =====
-- internal/worker/pool.go, fetchLoop and runWorker, and Commit of internal/queue/consumer.go, for a
-- pool of one worker on one partition. A fetched record is what json.Unmarshal makes of its value.
-- Kafka keeps one committed offset per partition, the one after the highest offset that was
-- committed; a record that is handled in order is the highest so far.
pub mod Commits
use notify_hub.Prelude.{ℕ, suc, Bool, true, false, Option, none, some, List, [], ◌∷◌, if◌then◌else◌}
use notify_hub.Domain.Errors.{Result, ok, err}
use notify_hub.Queue.Message.{Message}
use notify_hub.Db.World.{World, Env}
use notify_hub.Worker.Processor.{ProcessorDeps, Outcome, process}

-- What a restart of the consumer group begins from, and the world.
pub record PoolState : Type 0 where
  pub committed : ℕ
  pub world : World

module _ (deps : ProcessorDeps) (env : Env) where
  -- Commit of the record at an offset: its error is only logged.
  unfoldable pub commit : ℕ → PoolState → PoolState
  commit offset s = record {
    committed = if env.faults s.world.calls then s.committed else suc offset;
    world = record s.world { calls = suc s.world.calls };
  }

  -- The end of runWorker's body: an error of Process skips the commit.
  abbrev pub commit_by : ℕ → ℕ → Result Outcome → World → PoolState
  commit_by offset committed (err e) w = record { committed = committed; world = w }
  commit_by offset committed (ok o) w = commit offset (record { committed = committed; world = w })

  -- A record that does not decode is committed and skipped.
  unfoldable pub handle : ℕ → Option Message → PoolState → PoolState
  handle offset none s = commit offset s
  handle offset (some msg) s =
      let r = process deps env msg s.world in commit_by offset s.committed r.0 r.1

  -- The records of the partition from an offset on.
  unfoldable pub run : ℕ → List (Option Message) → PoolState → PoolState
  run offset [] s = s
  run offset (x ∷ xs) s = run (suc offset) xs (handle offset x s)
