-- ===== src/Worker/Pool/Commits.antt =====
-- internal/worker/pool.go: which offset is committed after a run.
use notify_hub.Prelude.{
  ℕ, suc, ◌+◌, ◌≤◌, false, Option, none, some, List, [], ◌∷◌, ◌++◌, ◌≡◌, refl, ◌∙◌, ap, arith,
  length,
}
use notify_hub.Domain.Errors.{Result, ok, err}
use notify_hub.Queue.Message.{Message}
use notify_hub.Db.World.{World, Env}
use notify_hub.Worker.Processor.{ProcessorDeps, Outcome, process}
use notify_hub.Worker.Pool.{PoolState, commit, commit_by, handle, run}

module _ (deps : ProcessorDeps) (env : Env) where
  run-snoc :
      (k : ℕ) (xs : List (Option Message)) (x : Option Message) (s : PoolState)
      → run deps env k (xs ++ (x ∷ [])) s ≡ handle deps env (k + length xs) x (run deps env k xs s)
  unfolding run
  run-snoc k [] x s = ap (λ i. handle deps env i x s) (omega arith)
  run-snoc k (y ∷ xs) x s =
      run-snoc (suc k) xs x (handle deps env k y s)
      ∙ ap (λ i. handle deps env i x (run deps env (suc k) xs (handle deps env k y s)))
          (omega arith)

  commit_by_bound :
      (k c : ℕ) (r : Result Outcome) (w : World)
      → c ≤ k
      → (commit_by deps env k c r w).committed ≤ suc k
  unfolding commit
  commit_by_bound k c (err e) w h = omega (arith, h)
  commit_by_bound k c (ok o) w h = ground (arith, h)

  handle_bound :
      (k : ℕ) (x : Option Message) (s : PoolState)
      → s.committed ≤ k
      → (handle deps env k x s).committed ≤ suc k
  unfolding handle commit
  handle_bound k none s h = ground (arith, h)
  handle_bound k (some m) s h =
      let r = process deps env m s.world in commit_by_bound k s.committed r.0 r.1 h

  -- A run over the records from an offset on that begins with no higher offset committed never
  -- commits beyond the records that it has handled.
  pub run_bound :
      (k : ℕ) (xs : List (Option Message)) (s : PoolState)
      → s.committed ≤ k
      → (run deps env k xs s).committed ≤ k + length xs
  unfolding run
  run_bound k [] s h = omega (arith, h)
  run_bound k (x ∷ xs) s h =
      omega (arith, run_bound (suc k) xs (handle deps env k x s) (handle_bound k x s h))

  committed_lem :
      (k : ℕ) (m : Message) (s : PoolState) (o : Outcome)
      → (process deps env m s.world).0 ≡ ok o
      → env.faults (process deps env m s.world).1.calls ≡ false
      → (handle deps env k (some m) s).committed ≡ suc k
  unfolding handle commit
  committed_lem k m s o h up = rw (h, up) refl

  -- A message that is processed without an error and whose commit goes through leaves the offset
  -- committed after it, whatever became of the messages before it in the partition: an earlier
  -- message that failed and was not committed lies below the committed offset.
  pub run-commits_past :
      (k : ℕ) (xs : List (Option Message)) (m : Message) (s : PoolState) (o : Outcome)
      → (process deps env m (run deps env k xs s).world).0 ≡ ok o
      → env.faults (process deps env m (run deps env k xs s).world).1.calls ≡ false
      → (run deps env k (xs ++ (some m ∷ [])) s).committed ≡ k + length xs + 1
  run-commits_past k xs m s o h up =
      ap (λ t. t.committed) (run-snoc k xs (some m) s)
      ∙ committed_lem (k + length xs) m (run deps env k xs s) o h up
      ∙ omega arith
