-- ===== src/Scanner/Pool/Progress.antt =====
-- How a run of `Execute` (workerpool.go) goes on: the bounds on its workers and channels, the work
-- that every step takes off, and a step for each state that has not returned.
use zero_agent_scan.Prelude.{
  true, ℕ, suc, ◌+◌, ◌*◌, ◌<◌, ◌≤◌, ◌≡◌, ◌⊎◌, refl, inl, inr, false, List, [], ◌∷◌, ◌++◌, length,
  length-append, arith, tally, not, ltb, Bool-cases,
}
use zero_agent_scan.Scanner.Retries.{EndpointScanTarget, Verdict}
use zero_agent_scan.Scanner.Pool.{
  Feeder, feeding, finished, gone, Collector, waiting, results_closed, returned, BoundedWorkerPool,
  channel_size, new_pool, workers_left, start_task, end_task, Step, Steps,
}
use zero_agent_scan.Scanner.Pool.Step.{
  feeds, stops_feeding, closes_tasks, starts, quits, exits, ends, sends, closes_results, collects,
  returns, cancels,
}
use zero_agent_scan.Scanner.Pool.Steps.{here, next}
use zero_agent_scan.Scanner.Pool.Totals.{length_middle}
use zero_agent_scan.Scanner.Pool.Accounts.{IsFeeding, Steps-IsFeeding}

List-cases {ℓ} :
    {A : Type ℓ} (xs : List A) → (xs ≡ []) ⊎ ((x : A) × (rest : List A) × (xs ≡ x ∷ rest))
List-cases [] = inl refl
List-cases (x ∷ xs) = inr (x, xs, refl)

abbrev feeder_work : Feeder → ℕ
feeder_work (feeding targets) = 1 + 5 * length targets
feeder_work finished = 0
feeder_work (gone targets) = 0

abbrev collector_work : Collector → ℕ
collector_work waiting = 2
collector_work results_closed = 1
collector_work returned = 0

module _ {T : Type 0} where
  -- The steps that are left at most.
  abbrev work_left : BoundedWorkerPool T → ℕ
  work_left p =
      feeder_work p.feeder
      + 4 * length p.tasks
      + p.idle
      + 4 * length p.running
      + 3 * length p.sending
      + length p.results
      + collector_work p.collector
      + tally (not p.cancelled)

  -- What holds of every state that a run comes to.
  abbrev pub IsBounded : ℕ → BoundedWorkerPool T → Type 0
  IsBounded n p =
      (workers_left p ≤ n)
      × (p.active_jobs ≡ length p.running)
      × (length p.tasks ≤ channel_size)
      × (length p.results ≤ channel_size)

module _ {T : Type 0} (verdicts : EndpointScanTarget → Verdict T) where
  ends-work_left :
      (p : BoundedWorkerPool T) (before after : List EndpointScanTarget) (t : EndpointScanTarget)
      (v : Verdict T)
      → p.running ≡ before ++ t ∷ after
      → work_left (end_task before after v p) < work_left p
  ends-work_left p before after t v e = ground (arith, length_middle before after t)

  Step-work_left : {p q : BoundedWorkerPool T} → Step verdicts p q → work_left q < work_left p
  Step-work_left (feeds p t rest e room) = ground (arith, length-append p.tasks (t ∷ []))
  Step-work_left (stops_feeding p t rest e c) = ground arith
  Step-work_left (closes_tasks p e) = ground arith
  Step-work_left (starts p t rest e h c) = ground arith
  Step-work_left (quits p t rest e h c) = ground arith
  Step-work_left (exits p e f h) = ground arith
  Step-work_left (ends p before after t v e same) = ends-work_left p before after t v e
  Step-work_left (sends p before after res e room) =
      ground (arith, length_middle before after res, length-append p.results (res ∷ []))
  Step-work_left (closes_results p z w) = ground arith
  Step-work_left (collects p res rest e) = ground arith
  Step-work_left (returns p e c) = ground arith
  Step-work_left (cancels p e) = ground arith

  abbrev pub step_count : {p q : BoundedWorkerPool T} → Steps verdicts p q → ℕ
  step_count here = 0
  step_count (next s q) = suc (step_count s)

  step_count-work_left :
      {p q : BoundedWorkerPool T} (s : Steps verdicts p q)
      → step_count s + work_left q ≤ work_left p
  step_count-work_left here = omega arith
  step_count-work_left (next s q) = omega (arith, step_count-work_left s, Step-work_left q)

  -- A step that does not cancel the context.
  abbrev GoesOn : BoundedWorkerPool T → Type 0
  GoesOn p = (q : BoundedWorkerPool T) × Step verdicts p q × (q.cancelled ≡ false)

  module _ (p : BoundedWorkerPool T) (u : p.cancelled ≡ false) where
    idle-GoesOn : 0 < p.idle → (f : Feeder) → p.feeder ≡ f → IsFeeding f → GoesOn p
    idle-GoesOn h f e kept = elim (List-cases p.tasks) [
      | inr (t, rest, some_task) ↦ (start_task t rest p, starts p t rest some_task h u, u)
      | inl no_task ↦ feeder_goes f e kept no_task
    ]
      where
        feeder_goes : (f : Feeder) → p.feeder ≡ f → IsFeeding f → p.tasks ≡ [] → GoesOn p
        feeder_goes (feeding []) e kept no_task = (_, closes_tasks p e, u)
        feeder_goes (feeding (t ∷ rest)) e kept no_task = (_, feeds p t rest e (ground arith), u)
        feeder_goes finished e kept no_task = (_, exits p no_task e h, u)
        feeder_goes (gone rest) e kept no_task = absurd kept

    ends-GoesOn :
        (t : EndpointScanTarget) (rest : List EndpointScanTarget) → p.running ≡ t ∷ rest → GoesOn p
    ends-GoesOn t rest e =
        let kept : (end_task [] rest (verdicts t) p).cancelled ≡ false = ground arith in
        (end_task [] rest (verdicts t) p, ends p [] rest t (verdicts t) e (λ _. refl), kept)

    busy-GoesOn : p.results ≡ [] → p.collector ≡ waiting → IsFeeding p.feeder → GoesOn p
    busy-GoesOn drained w kept = elim (List-cases p.sending) [
      | inr (res, rest, e) ↦ (_, sends p [] rest res e (ground arith), u)
      | inl none_sending ↦ elim (List-cases p.running) [
        | inr (t, rest, e) ↦ ends-GoesOn t rest e
        | inl none_running ↦ elim (Bool-cases (ltb 0 p.idle)) [
          | inl some_idle ↦ idle-GoesOn (ground arith) p.feeder refl kept
          | inr none_idle ↦ (_, closes_results p (ground arith) w, u)
        ]
      ]
    ]

    unreturned-GoesOn :
        (c : Collector) → p.collector ≡ c → IsFeeding p.feeder → (p.collector ≡ returned) ⊎ GoesOn p
    unreturned-GoesOn c e kept = elim (List-cases p.results) [
      | inr (res, rest, some_result) ↦ inr (_, collects p res rest some_result, u)
      | inl drained ↦ collector_goes c e drained
    ]
      where
        collector_goes :
            (c : Collector) → p.collector ≡ c → p.results ≡ [] → (p.collector ≡ returned) ⊎ GoesOn p
        collector_goes waiting e drained = inr (busy-GoesOn drained e kept)
        collector_goes results_closed e drained = inr (_, returns p drained e, u)
        collector_goes returned e drained = inl e

  module _ (n : ℕ) (targets : List EndpointScanTarget) {p : BoundedWorkerPool T}
      (reached : Steps verdicts (new_pool n targets) p) where
    -- A run of a pool of `n` workers has at most 5 steps for each target, one for each worker and 4
    -- more; and its state is cancelled, or has returned, or has a next
    -- step that is not a cancellation.
    pub execute_goes_on :
        (step_count reached ≤ 5 * length targets + n + 4)
        × ((p.cancelled ≡ true)
            ⊎ ((p.collector ≡ returned)
                ⊎ ((q : BoundedWorkerPool T) × Step verdicts p q × (q.cancelled ≡ false))))
    execute_goes_on = (
      omega (arith, step_count-work_left reached),
      elim (Bool-cases p.cancelled) [
        | inl c ↦ inl c
        | inr u ↦
            inr (
              unreturned-GoesOn p u p.collector refl (Steps-IsFeeding verdicts n targets reached u))
      ],
    )

  module _ (n : ℕ) where
    Step-IsBounded : {p q : BoundedWorkerPool T} → Step verdicts p q → IsBounded n p → IsBounded n q
    Step-IsBounded (feeds p t rest e room) b = ground (arith, b, length-append p.tasks (t ∷ []))
    Step-IsBounded (stops_feeding p t rest e c) b = b
    Step-IsBounded (closes_tasks p e) b = b
    Step-IsBounded (starts p t rest e h c) b = ground (arith, b)
    Step-IsBounded (quits p t rest e h c) b = ground (arith, b)
    Step-IsBounded (exits p e f h) b = ground (arith, b)
    Step-IsBounded (ends p before after t v e same) b =
        ground (arith, b, length_middle before after t)
    Step-IsBounded (sends p before after res e room) b =
        ground (arith, b, length_middle before after res, length-append p.results (res ∷ []))
    Step-IsBounded (closes_results p z w) b = b
    Step-IsBounded (collects p res rest e) b = ground (arith, b)
    Step-IsBounded (returns p e c) b = b
    Step-IsBounded (cancels p e) b = b

    -- In every state of a run of `n` workers at most `n` are at work, as many as the counter of
    -- active jobs are at a task, and neither channel holds more than its capacity.
    pub execute-IsBounded :
        (targets : List EndpointScanTarget) {p : BoundedWorkerPool T}
        → Steps verdicts (new_pool n targets) p
        → IsBounded n p
    execute-IsBounded targets here = ground arith
    execute-IsBounded targets (next s q) = Step-IsBounded q (execute-IsBounded targets s)
