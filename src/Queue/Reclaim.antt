-- ===== src/Queue/Reclaim.antt =====
-- What `ReclaimExpiredLeases` of job_queue.go takes back.
use mathlib.Core.Option
use zero_agent_scan.Prelude.{
  ℕ, ◌+◌, ◌<◌, String, ◌≡◌, refl, Bool, true, false, ◌&&◌, Option, none, some, [], ◌∷◌, arith, Each,
  Map, lookup, count, if◌then◌else◌,
}
use zero_agent_scan.Prelude.Int.{ℤ, pos, pos_part, leb_ℤ, ltb_ℤ}
use zero_agent_scan.Queue.Entries.{TaskStatus, HostTask, is_leased}
use zero_agent_scan.Queue.Entries.TaskStatus.{pending, leased, completed, failed}
use zero_agent_scan.Queue.{JobQueue, expired, reclaim_loop, reclaim_expired_leases}
use zero_agent_scan.Queue.Bounds.{IsSound, AllSound}

-- A test `len(leased) >= batchSize` that passes at a batch that is not full.
leb_false : (size : ℤ) (n : ℕ) → leb_ℤ size (pos (n + 1)) ≡ true → n + 1 < pos_part size → ⊥
leb_false size n h l = ground arith

-- A deadline, if there is one, that has passed.
abbrev pub has_passed : ℤ → Option ℤ → Bool
has_passed now none = true
has_passed now (some t) = ltb_ℤ t now

-- The lease of a task has run out: it is leased, with a deadline before `now`.
abbrev pub is_overdue : ℤ → TaskStatus → Option ℤ → Bool
is_overdue now pending deadline = false
is_overdue now leased none = false
is_overdue now leased (some t) = ltb_ℤ t now
is_overdue now completed deadline = false
is_overdue now failed deadline = false

expired-eq :
    (now : ℤ) (status : TaskStatus) (deadline : Option ℤ)
    → (is_leased status && (elim deadline [ none ↦ false | some t ↦ ltb_ℤ t now ]))
      ≡ is_overdue now status deadline
expired-eq now pending deadline = refl
expired-eq now leased none = refl
expired-eq now leased (some t) = refl
expired-eq now completed deadline = refl
expired-eq now failed deadline = refl

module _ {R : Type 0} where
  abbrev pub overdue_task : ℤ → HostTask R → Bool
  overdue_task now task = is_overdue now task.status task.lease_expires_at

  -- The task is pending again, with no worker and no deadline.
  abbrev pub freed : ℤ → HostTask R → HostTask R
  freed now task = record task {
    status = pending;
    leased_by_worker = "";
    lease_expires_at = none;
    updated_at = now;
  }

  abbrev pub freed_if_overdue : ℤ → HostTask R → HostTask R
  freed_if_overdue now task = if overdue_task now task then freed now task else task

  swept-eq : (now : ℤ) (task : HostTask R) → expired now task ≡ overdue_task now task
  swept-eq now task = expired-eq now task.status task.lease_expires_at

  reclaim_loop_lem :
      (now : ℤ) (tasks : Map (HostTask R)) (k : String)
      → lookup k (reclaim_loop now tasks).1 ≡ Option.map (freed_if_overdue now) (lookup k tasks)
  unfolding reclaim_loop lookup
  reclaim_loop_lem now [] k = refl
  reclaim_loop_lem now ((i, task) ∷ tasks) k =
      ground (arith, reclaim_loop_lem now tasks k, swept-eq now task)

  reclaim_loop-count :
      (now : ℤ) (tasks : Map (HostTask R))
      → (reclaim_loop now tasks).0 ≡ count (overdue_task now) tasks
  unfolding reclaim_loop count
  reclaim_loop-count now [] = refl
  reclaim_loop-count now ((i, task) ∷ tasks) =
      ground (arith, reclaim_loop-count now tasks, swept-eq now task)

  -- Reclaiming frees exactly the leased tasks whose deadline is before `now`: it returns their
  -- number, each of them is pending with no worker and no deadline, updated at `now` and else as it
  -- was; every other task and all jobs are untouched.
  pub reclaim_expired_leases_lem :
      (now : ℤ) (q : JobQueue R) (k : String)
      → ((reclaim_expired_leases now q).0 ≡ count (overdue_task now) q.tasks)
        × (lookup k (reclaim_expired_leases now q).1.tasks
            ≡ Option.map (freed_if_overdue now) (lookup k q.tasks))
        × ((reclaim_expired_leases now q).1.jobs ≡ q.jobs)
  unfolding reclaim_expired_leases
  reclaim_expired_leases_lem now q k =
      (reclaim_loop-count now q.tasks, reclaim_loop_lem now q.tasks k, refl)

  reclaim_loop_recovers :
      (now : ℤ) (tasks : Map (HostTask R))
      → Each IsSound tasks
      → Each (λ task. has_passed now task.lease_expires_at ≡ true) tasks
      → Each (λ task. is_leased task.status ≡ false) (reclaim_loop now tasks).1
  unfolding reclaim_loop
  reclaim_loop_recovers now [] s d = tt
  reclaim_loop_recovers now ((k, task) ∷ tasks) s d =
      let sound = s.0 in ground (arith, reclaim_loop_recovers now tasks)

  -- After a crash: in a sound queue whose deadlines have all passed, reclaiming leaves no task
  -- leased, so that every unfinished task can be leased again.
  pub reclaim_recovers :
      (now : ℤ) (q : JobQueue R)
      → AllSound q
      → Each (λ task. has_passed now task.lease_expires_at ≡ true) q.tasks
      → Each (λ task. is_leased task.status ≡ false) (reclaim_expired_leases now q).1.tasks
  unfolding reclaim_expired_leases
  reclaim_recovers now q s d = reclaim_loop_recovers now q.tasks s d
