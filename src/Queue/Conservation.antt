-- ===== src/Queue/Conservation.antt =====
-- Each operation of the queue (job_queue.go) keeps the counters of every job in step with its
-- tasks, if results are reported for leased tasks and keys are new.
use mathlib.Core.Option
use mathlib.Core.Path.{subst}
use zero_agent_scan.Prelude.{
  ◌↔◌, ◌+◌, String, ◌≡◌, refl, inl, inr, Bool, true, false, Option, none, some, List, [], ◌∷◌, ◌&&◌,
  ◌==◌, eq_iff, arith, Map, All, length, lookup, insert, count, count-insert_old, count-insert_new,
  lookup-insert, Option-cases, Bool-cases, tally, ltb, if◌then◌else◌,
}
use zero_agent_scan.Prelude.Int.{ℤ}
use zero_agent_scan.Queue.Entries.{
  TaskStatus, JobEntry, HostTask, pending, is_pending, is_leased, start_job, finalize, scanned_job,
  failed_job, opened,
}
use zero_agent_scan.Queue.{
  JobQueue, new_task, add_tasks, enqueue_job, leased_task, lease_task, complete_found,
  completed_task, fail_found, retried_task, failed_task, reclaim_loop,
}
use zero_agent_scan.Queue.Accounting.{
  is_completed, is_failed, is_open, is_any, belongs, tasks_of, tasks_of_split, Balanced, started,
  lookup-start_job, lookup-update_job,
}

module _ {R : Type 0} where
  pub record Accounts (q : JobQueue R) : Type 0 where
    pub known : (j : String) (job : JobEntry) → lookup j q.jobs ≡ some job → Balanced q.tasks j job
    pub orphans : (j : String) → lookup j q.jobs ≡ none → tasks_of j is_any q.tasks ≡ 0

  -- The four counts of a job around a write of one task.
  pub record Recount (old new : HostTask R) (before after : Map (HostTask R)) (j : String)
      : Type 0 where
    pub done :
        tasks_of j is_completed after + tally (belongs j is_completed old)
        ≡ tasks_of j is_completed before + tally (belongs j is_completed new)
    pub lost :
        tasks_of j is_failed after + tally (belongs j is_failed old)
        ≡ tasks_of j is_failed before + tally (belongs j is_failed new)
    pub open_ :
        tasks_of j is_open after + tally (belongs j is_open old)
        ≡ tasks_of j is_open before + tally (belongs j is_open new)
    pub all :
        tasks_of j is_any after + tally (belongs j is_any old)
        ≡ tasks_of j is_any before + tally (belongs j is_any new)

  recount :
      (k : String) (old new : HostTask R) (tasks : Map (HostTask R))
      → lookup k tasks ≡ some old
      → (j : String) → Recount old new tasks (insert k new tasks) j
  recount k old new tasks e j = record {
    done = count-insert_old (belongs j is_completed) k new old tasks e;
    lost = count-insert_old (belongs j is_failed) k new old tasks e;
    open_ = count-insert_old (belongs j is_open) k new old tasks e;
    all = count-insert_old (belongs j is_any) k new old tasks e;
  }

  -- A write of one task, with a change `f` of its job, keeps the accounts if it keeps that job's.
  write-Accounts :
      (q : JobQueue R) (jobs : Map JobEntry) (f : JobEntry → JobEntry) (k : String)
      (old new : HostTask R)
      → Accounts q
      → lookup k q.tasks ≡ some old
      → new.job_id ≡ old.job_id
      → ((j : String)
          → lookup j jobs
            ≡ (if old.job_id == j then Option.map f (lookup j q.jobs) else lookup j q.jobs))
      → ((j : String) (job : JobEntry)
          → (old.job_id == j) ≡ true
          → Balanced q.tasks j job
          → Recount old new q.tasks (insert k new q.tasks) j
          → Balanced (insert k new q.tasks) j (f job))
      → Accounts (record { jobs = jobs; tasks = insert k new q.tasks })
  write-Accounts q jobs f k old new acc e same changed keep = record {
    known = λ j job h. known_after j job h (recount k old new q.tasks e j);
    orphans =
        λ j h. let r = recount k old new q.tasks e j in ground (arith, changed j, acc.orphans j);
  }
    where
      known_after :
          (j : String) (job : JobEntry)
          → lookup j jobs ≡ some job
          → Recount old new q.tasks (insert k new q.tasks) j
          → Balanced (insert k new q.tasks) j job
      known_after j job h r = elim (Bool-cases (old.job_id == j)) [
        | inl t ↦ elim (Option-cases (lookup j q.jobs)) [
          | inl z ↦ absurd (ground (arith, changed j))
          | inr (before, z) ↦
              let written : f before ≡ job = ground (arith, changed j) in
              subst (Balanced (insert k new q.tasks) j) written
                (keep j before t (acc.known j before z) r)
        ]
        | inr t ↦
            let unchanged : Balanced q.tasks j job = acc.known j job (ground (arith, changed j)) in
            ground arith
      ]

module _ {R : Type 0} where
  pub lease_task-Accounts :
      (now expires : ℤ) (worker k : String) (task : HostTask R) (q : JobQueue R)
      → Accounts q
      → lookup k q.tasks ≡ some task
      → is_pending task.status ≡ true
      → Accounts (lease_task now expires worker k task q)
  unfolding lease_task
  lease_task-Accounts now expires worker k task q acc e p =
      write-Accounts q (start_job now task.job_id q.jobs) (started now) k task
        (leased_task now expires worker task) acc e refl
        (λ j. lookup-start_job now task.job_id j q.jobs) (λ j job t b r. ground arith)

  pub complete_found-Accounts :
      (now : ℤ) (k : String) (task : HostTask R) (ok : Bool) (result : Option R) (q : JobQueue R)
      → Accounts q
      → lookup k q.tasks ≡ some task
      → is_leased task.status ≡ true
      → Accounts (complete_found now k task ok result q)
  unfolding complete_found
  complete_found-Accounts now k task ok result q acc e p =
      write-Accounts q _ (λ job. finalize now (scanned_job now ok job)) k task
        (completed_task now result task) acc e refl (λ j. lookup-update_job _ task.job_id j q.jobs)
        (λ j job t b r.
          ground (arith, tasks_of_split j (insert k (completed_task now result task) q.tasks)))

  pub fail_found-Accounts :
      (now : ℤ) (k : String) (task : HostTask R) (message : String) (retryable : Bool)
      (q : JobQueue R)
      → Accounts q
      → lookup k q.tasks ≡ some task
      → is_leased task.status ≡ true
      → Accounts (fail_found now k task message retryable q)
  unfolding fail_found
  fail_found-Accounts now k task message retryable q acc e p =
      elim (Bool-cases (retryable && ltb task.retry_count task.max_retries)) [
        | inl t ↦ rw t (
            write-Accounts q q.jobs (λ job. job) k task (retried_task now message task) acc e refl
              (λ j. ground arith) (λ j job u b r. ground arith))
        | inr t ↦ rw t (
            write-Accounts q _ (λ job. finalize now (failed_job now job)) k task
              (failed_task now message task) acc e refl
              (λ j. lookup-update_job _ task.job_id j q.jobs)
              (λ j job u b r.
                ground (arith, tasks_of_split j (insert k (failed_task now message task) q.tasks))))
      ]

  pub reclaim_loop-counts :
      (now : ℤ) (tasks : Map (HostTask R)) (j : String)
      → (tasks_of j is_completed (reclaim_loop now tasks).1 ≡ tasks_of j is_completed tasks)
        × (tasks_of j is_failed (reclaim_loop now tasks).1 ≡ tasks_of j is_failed tasks)
        × (tasks_of j is_open (reclaim_loop now tasks).1 ≡ tasks_of j is_open tasks)
        × (tasks_of j is_any (reclaim_loop now tasks).1 ≡ tasks_of j is_any tasks)
  unfolding reclaim_loop count
  reclaim_loop-counts now [] j = (refl, refl, refl, refl)
  reclaim_loop-counts now ((k, task) ∷ tasks) j = ground (arith, reclaim_loop-counts now tasks j)

  -- The keys drawn for new tasks are new, and differ from one another.
  abbrev pub AreNew : List (String × String) → Map (HostTask R) → Type 0
  AreNew [] tasks = Unit
  AreNew ((k, ip) ∷ rest) tasks =
      (lookup k tasks ≡ none) × All (λ t. (k == t.0) ≡ false) rest × AreNew rest tasks

  AreNew-insert :
      (k : String) (task : HostTask R) (targets : List (String × String)) (tasks : Map (HostTask R))
      → All (λ t. (k == t.0) ≡ false) targets
      → AreNew targets tasks
      → AreNew targets (insert k task tasks)
  AreNew-insert k task [] tasks d h = tt
  AreNew-insert k task ((i, ip) ∷ rest) tasks d h =
      (ground (arith, lookup-insert k i task tasks), h.1, AreNew-insert k task rest tasks d.1 h.2)

  add_tasks-counts :
      (now : ℤ) (job : JobEntry) (targets : List (String × String)) (tasks : Map (HostTask R))
      (s : TaskStatus → Bool) (j : String)
      → AreNew targets tasks
      → tasks_of j s (add_tasks now job targets tasks)
        ≡ tasks_of j s tasks + (if job.id == j && s pending then length targets else 0)
  unfolding add_tasks new_task
  add_tasks-counts now job [] tasks s j h = ground arith
  add_tasks-counts now job ((k, ip) ∷ rest) tasks s j h = ground (
    arith,
    count-insert_new (belongs j s) k (new_task now job k ip) tasks h.0,
    add_tasks-counts now job rest (insert k (new_task now job k ip) tasks) s j
        (AreNew-insert k (new_task now job k ip) rest tasks h.1 h.2),
  )

  pub enqueue_job-Accounts :
      (now : ℤ) (job : JobEntry) (targets : List (String × String)) (q : JobQueue R)
      → Accounts q
      → lookup job.id q.jobs ≡ none
      → job.scanned_hosts ≡ 0
      → job.failed_hosts ≡ 0
      → AreNew targets q.tasks
      → Accounts (enqueue_job now job targets q)
  unfolding enqueue_job
  enqueue_job-Accounts now job targets q acc new s0 f0 keys = record {
    known = λ j e h. known_after j e h (eq_iff job.id j);
    orphans = λ j h. ground (
      arith,
      eq_iff job.id j,
      lookup-insert job.id j entry q.jobs,
      acc.orphans j,
      add_tasks-counts now entry targets q.tasks is_any j keys,
    );
  }
    where
      entry : JobEntry
      entry = opened now job (length targets)

      known_after :
          (j : String) (e : JobEntry)
          → lookup j (insert job.id entry q.jobs) ≡ some e
          → ((job.id == j) ≡ true) ↔ (job.id ≡ j)
          → Balanced (add_tasks now entry targets q.tasks) j e
      known_after j e h same =
          let done = add_tasks-counts now entry targets q.tasks is_completed j keys in
          let lost = add_tasks-counts now entry targets q.tasks is_failed j keys in
          let open_ = add_tasks-counts now entry targets q.tasks is_open j keys in
          let all = add_tasks-counts now entry targets q.tasks is_any j keys in
          let found = lookup-insert job.id j entry q.jobs in
          elim (Bool-cases (job.id == j)) [
            | inl t ↦
                let empty : tasks_of j is_any q.tasks ≡ 0 = ground (arith, acc.orphans j) in
                let written : entry ≡ e = ground arith in
                subst (Balanced (add_tasks now entry targets q.tasks) j) written
                  (ground (arith, tasks_of_split j q.tasks))
            | inr t ↦
                let before : Balanced q.tasks j e = acc.known j e (ground arith) in ground arith
          ]
