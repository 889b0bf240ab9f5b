-- ===== src/Scanner/Pool.antt =====
-- apps/gateway/internal/scanner/workerpool.go: `Execute` and `workerRoutine`, one step at a time.
-- A task is its target: its attempts are counted anew and its error is never set. The steps are the
-- channel operations of the goroutines, in any order; the update of the counters stands with the
-- end of a task, since nothing reads them before the return. `verdicts` is what
-- `processTaskWithRetry` returns for a target while the context is not cancelled.
pub mod Totals
pub mod Accounts
pub mod Progress
pub mod Cancelled
use zero_agent_scan.Prelude.{
  ℕ, suc, ◌+◌, ◌-◌, ◌<◌, ◌≡◌, Bool, true, false, List, [], ◌∷◌, ◌++◌, none, some, length,
}
use zero_agent_scan.Scanner.Retries.{EndpointScanTarget, EndpointScanResult, Verdict}

-- The goroutine that feeds the tasks: the targets before it, `tasksCh` closed behind the last one,
-- or gone at `ctx.Done()` with these targets left and the channel open.
pub data Feeder : Type 0 where
  feeding : List EndpointScanTarget → Feeder
  finished : Feeder
  gone : List EndpointScanTarget → Feeder

-- The collector waits for the workers, has closed `resultsCh`, or `Execute` has returned.
pub data Collector : Type 0 where
  waiting : Collector
  results_closed : Collector
  returned : Collector

-- The state of a run. `idle` counts the workers that wait for a task; `running` and `sending` list
-- what the others are at. The workers of the three kinds are those that the wait group counts.
pub record BoundedWorkerPool (T : Type 0) : Type 0 where
  pub concurrency : ℕ
  pub feeder : Feeder
  pub tasks : List EndpointScanTarget
  pub idle : ℕ
  pub running : List EndpointScanTarget
  pub sending : List (EndpointScanResult T)
  pub results : List (EndpointScanResult T)
  pub collector : Collector
  pub collected : List (EndpointScanResult T)
  pub active_jobs : ℕ
  pub completed : ℕ
  pub failed : ℕ
  pub cancelled : Bool

-- The capacity of either channel.
abbrev pub channel_size : ℕ
channel_size = 1024

module _ {T : Type 0} where
  -- The workers are launched; nothing has been fed.
  abbrev pub new_pool : ℕ → List EndpointScanTarget → BoundedWorkerPool T
  new_pool n targets = record {
    concurrency = n;
    feeder = feeding targets;
    tasks = [];
    idle = n;
    running = [];
    sending = [];
    results = [];
    collector = waiting;
    collected = [];
    active_jobs = 0;
    completed = 0;
    failed = 0;
    cancelled = false;
  }

  -- The counter of the wait group.
  abbrev pub workers_left : BoundedWorkerPool T → ℕ
  workers_left p = p.idle + length p.running + length p.sending

  -- A worker has received the first task and starts it.
  abbrev pub start_task :
      EndpointScanTarget → List EndpointScanTarget → BoundedWorkerPool T → BoundedWorkerPool T
  start_task t rest p = record p {
    tasks = rest;
    idle = p.idle - 1;
    running = t ∷ p.running;
    active_jobs = suc p.active_jobs;
  }

  abbrev count_task : Verdict T → BoundedWorkerPool T → BoundedWorkerPool T
  count_task v p = elim v.error [
    | none ↦ record p { active_jobs = p.active_jobs - 1; completed = suc p.completed }
    | some e ↦ record p { active_jobs = p.active_jobs - 1; failed = suc p.failed }
  ]

  -- A running task, the one between `before` and `after`, ends with `v`.
  abbrev pub end_task :
      List EndpointScanTarget
      → List EndpointScanTarget
      → Verdict T
      → BoundedWorkerPool T
      → BoundedWorkerPool T
  end_task before after v p =
      let counted = count_task v p in
      elim v.result [
        | none ↦ record counted { running = before ++ after; idle = suc p.idle }
        | some res ↦ record counted { running = before ++ after; sending = res ∷ p.sending }
      ]

  -- A step of some goroutine, or the end of the context.
  pub data Step (verdicts : EndpointScanTarget → Verdict T)
      : BoundedWorkerPool T → BoundedWorkerPool T → Type 0 where
    feeds :
        (p : BoundedWorkerPool T) (t : EndpointScanTarget) (rest : List EndpointScanTarget)
        → p.feeder ≡ feeding (t ∷ rest)
        → length p.tasks < channel_size
        → Step verdicts p (record p { feeder = feeding rest; tasks = p.tasks ++ t ∷ [] })
    stops_feeding :
        (p : BoundedWorkerPool T) (t : EndpointScanTarget) (rest : List EndpointScanTarget)
        → p.feeder ≡ feeding (t ∷ rest)
        → p.cancelled ≡ true
        → Step verdicts p (record p { feeder = gone (t ∷ rest) })
    closes_tasks :
        (p : BoundedWorkerPool T)
        → p.feeder ≡ feeding []
        → Step verdicts p (record p { feeder = finished })
    starts :
        (p : BoundedWorkerPool T) (t : EndpointScanTarget) (rest : List EndpointScanTarget)
        → p.tasks ≡ t ∷ rest
        → 0 < p.idle
        → p.cancelled ≡ false
        → Step verdicts p (start_task t rest p)
    quits :
        (p : BoundedWorkerPool T) (t : EndpointScanTarget) (rest : List EndpointScanTarget)
        → p.tasks ≡ t ∷ rest
        → 0 < p.idle
        → p.cancelled ≡ true
        → Step verdicts p (record p { tasks = rest; idle = p.idle - 1 })
    exits :
        (p : BoundedWorkerPool T)
        → p.tasks ≡ []
        → p.feeder ≡ finished
        → 0 < p.idle
        → Step verdicts p (record p { idle = p.idle - 1 })
    ends :
        (p : BoundedWorkerPool T) (before after : List EndpointScanTarget) (t : EndpointScanTarget)
        (v : Verdict T)
        → p.running ≡ before ++ t ∷ after
        → (p.cancelled ≡ false → v ≡ verdicts t)
        → Step verdicts p (end_task before after v p)
    sends :
        (p : BoundedWorkerPool T) (before after : List (EndpointScanResult T))
        (res : EndpointScanResult T)
        → p.sending ≡ before ++ res ∷ after
        → length p.results < channel_size
        → Step verdicts p (record p {
          sending = before ++ after;
          idle = suc p.idle;
          results = p.results ++ res ∷ [];
        })
    closes_results :
        (p : BoundedWorkerPool T)
        → workers_left p ≡ 0
        → p.collector ≡ waiting
        → Step verdicts p (record p { collector = results_closed })
    collects :
        (p : BoundedWorkerPool T) (res : EndpointScanResult T) (rest : List (EndpointScanResult T))
        → p.results ≡ res ∷ rest
        → Step verdicts p (record p { results = rest; collected = p.collected ++ res ∷ [] })
    returns :
        (p : BoundedWorkerPool T)
        → p.results ≡ []
        → p.collector ≡ results_closed
        → Step verdicts p (record p { collector = returned })
    cancels :
        (p : BoundedWorkerPool T)
        → p.cancelled ≡ false
        → Step verdicts p (record p { cancelled = true })

  pub data Steps (verdicts : EndpointScanTarget → Verdict T) (p : BoundedWorkerPool T)
      : BoundedWorkerPool T → Type 0 where
    here : Steps verdicts p p
    next : {q r : BoundedWorkerPool T} → Steps verdicts p q → Step verdicts q r → Steps verdicts p r
