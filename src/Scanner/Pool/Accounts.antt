-- ===== src/Scanner/Pool/Accounts.antt =====
-- The targets and the results of a run of `Execute` (workerpool.go) whose context is not cancelled:
-- what has been returned, what is on its way and what is still to be done add up.
use mathlib.Core.Path.{subst}
use zero_agent_scan.Prelude.{ℕ, ◌+◌, ◌<◌, ◌≡◌, sym, ◌⊎◌, false, List, [], ◌∷◌, ◌++◌, length, arith}
use zero_agent_scan.Scanner.Retries.{EndpointScanTarget, EndpointScanResult, Verdict}
use zero_agent_scan.Scanner.Pool.{
  Feeder, feeding, finished, gone, waiting, results_closed, returned, BoundedWorkerPool, new_pool,
  workers_left, end_task, Step, Steps,
}
use zero_agent_scan.Scanner.Pool.Step.{
  feeds, stops_feeding, closes_tasks, starts, quits, exits, ends, sends, closes_results, collects,
  returns, cancels,
}
use zero_agent_scan.Scanner.Pool.Steps.{here, next}
use zero_agent_scan.Scanner.Pool.Totals.{
  total, total-append, total_none, total_middle, total_ones, length_middle, or_zero,
}

abbrev pub rest_of : Feeder → List EndpointScanTarget
rest_of (feeding targets) = targets
rest_of finished = []
rest_of (gone targets) = targets

-- The feeder has not left targets behind.
abbrev pub IsFeeding : Feeder → Type 0
IsFeeding (feeding targets) = Unit
IsFeeding finished = Unit
IsFeeding (gone targets) = ⊥

module _ {T : Type 0} where
  -- Every worker is there, or the tasks are at their end.
  abbrev IsManned : BoundedWorkerPool T → Type 0
  IsManned p = (workers_left p ≡ p.concurrency) ⊎ ((p.feeder ≡ finished) × (p.tasks ≡ []))

  -- The results are closed once the workers are done, and the return has drained them.
  abbrev IsDrained : BoundedWorkerPool T → Type 0
  IsDrained p =
      (p.collector ≡ waiting)
      ⊎ ((workers_left p ≡ 0) × ((p.collector ≡ results_closed) ⊎ (p.results ≡ [])))

module _ {T : Type 0} (verdicts : EndpointScanTarget → Verdict T) where
  -- 1 for a target whose verdict has an error.
  abbrev pub failure : EndpointScanTarget → ℕ
  failure t = or_zero (λ _. 1) (verdicts t).error

  -- What the result of a target weighs, if there is one.
  abbrev pub worth : (EndpointScanResult T → ℕ) → EndpointScanTarget → ℕ
  worth weight t = or_zero weight (verdicts t).result

  -- What a weight on the targets sums up to over those that are not done.
  abbrev to_do : (EndpointScanTarget → ℕ) → BoundedWorkerPool T → ℕ
  to_do weight p = total weight p.running + total weight p.tasks + total weight (rest_of p.feeder)

  abbrev IsAccounted :
      (EndpointScanResult T → ℕ) → ℕ → List EndpointScanTarget → BoundedWorkerPool T → Type 0
  IsAccounted weight n targets p =
      (p.concurrency ≡ n)
      × IsFeeding p.feeder
      × IsManned p
      × IsDrained p
      × (total weight p.collected
            + total weight p.results
            + total weight p.sending
            + to_do (worth weight) p
          ≡ total (worth weight) targets)
      × (p.failed + to_do failure p ≡ total failure targets)
      × (p.completed + p.failed + to_do (λ _. 1) p ≡ total (λ _. 1) targets)

  -- A context that has ended stays so.
  pub Step-uncancelled :
      {p q : BoundedWorkerPool T} → Step verdicts p q → q.cancelled ≡ false → p.cancelled ≡ false
  Step-uncancelled (feeds p t rest e room) u = u
  Step-uncancelled (stops_feeding p t rest e c) u = u
  Step-uncancelled (closes_tasks p e) u = u
  Step-uncancelled (starts p t rest e h c) u = u
  Step-uncancelled (quits p t rest e h c) u = u
  Step-uncancelled (exits p e f h) u = u
  Step-uncancelled (ends p before after t v e same) u = ground arith
  Step-uncancelled (sends p before after res e room) u = u
  Step-uncancelled (closes_results p z w) u = u
  Step-uncancelled (collects p res rest e) u = u
  Step-uncancelled (returns p e c) u = u
  Step-uncancelled (cancels p e) u = e

  module _ (weight : EndpointScanResult T → ℕ) (n : ℕ) (targets : List EndpointScanTarget) where
    feeds-IsAccounted :
        (p : BoundedWorkerPool T) (t : EndpointScanTarget) (rest : List EndpointScanTarget)
        → p.feeder ≡ feeding (t ∷ rest)
        → IsAccounted weight n targets p
        → IsAccounted weight n targets
            (record p { feeder = feeding rest; tasks = p.tasks ++ t ∷ [] })
    feeds-IsAccounted p t rest e a = ground (
      arith,
      a,
      total-append (worth weight) p.tasks (t ∷ []),
      total-append failure p.tasks (t ∷ []),
      total-append (λ _. 1) p.tasks (t ∷ []),
    )

    ends-IsAccounted :
        (p : BoundedWorkerPool T) (before after : List EndpointScanTarget) (t : EndpointScanTarget)
        → p.running ≡ before ++ t ∷ after
        → IsAccounted weight n targets p
        → IsAccounted weight n targets (end_task before after (verdicts t) p)
    ends-IsAccounted p before after t e a = ground (
      arith,
      a,
      length_middle before after t,
      total_middle (worth weight) before after t,
      total_middle failure before after t,
      total_middle (λ _. 1) before after t,
    )

    Step-IsAccounted :
        {p q : BoundedWorkerPool T}
        → Step verdicts p q
        → q.cancelled ≡ false
        → IsAccounted weight n targets p
        → IsAccounted weight n targets q
    Step-IsAccounted (feeds p t rest e room) u a = feeds-IsAccounted p t rest e a
    Step-IsAccounted (stops_feeding p t rest e c) u a = absurd (ground arith)
    Step-IsAccounted (closes_tasks p e) u a = ground (arith, a)
    Step-IsAccounted (starts p t rest e h c) u a = ground (arith, a)
    Step-IsAccounted (quits p t rest e h c) u a = absurd (ground arith)
    Step-IsAccounted (exits p e f h) u a = ground (arith, a)
    Step-IsAccounted (ends p before after t v e same) u a =
        let verdict : v ≡ verdicts t = same (Step-uncancelled (ends p before after t v e same) u) in
        subst (λ w. IsAccounted weight n targets (end_task before after w p)) (sym verdict)
          (ends-IsAccounted p before after t e a)
    Step-IsAccounted (sends p before after res e room) u a = ground (
      arith,
      a,
      length_middle before after res,
      total-append weight p.results (res ∷ []),
      total_middle weight before after res,
    )
    Step-IsAccounted (closes_results p z w) u a = ground (arith, a)
    Step-IsAccounted (collects p res rest e) u a =
        ground (arith, a, total-append weight p.collected (res ∷ []))
    Step-IsAccounted (returns p e c) u a = ground (arith, a)
    Step-IsAccounted (cancels p e) u a = absurd (ground arith)

    Steps-IsAccounted :
        {p : BoundedWorkerPool T}
        → Steps verdicts (new_pool n targets) p
        → p.cancelled ≡ false
        → IsAccounted weight n targets p
    Steps-IsAccounted here u = ground arith
    Steps-IsAccounted (next s q) u =
        Step-IsAccounted q u (Steps-IsAccounted s (Step-uncancelled q u))

    -- Where a pool of some workers has returned and its context has not been cancelled, every
    -- weight on the results sums up to the same over what it returns as over the results of the
    -- targets taken one after the other; as many tasks are counted as completed or failed as
    -- there are targets, and as failed as there are targets whose verdict has an error.
    pub execute_returned :
        {p : BoundedWorkerPool T}
        → Steps verdicts (new_pool n targets) p
        → 0 < n
        → p.cancelled ≡ false
        → p.collector ≡ returned
        → (total weight p.collected ≡ total (worth weight) targets)
          × (p.completed + p.failed ≡ length targets)
          × (p.failed ≡ total failure targets)
    execute_returned {p = p} s h u e =
        let a = Steps-IsAccounted s u in
        let idle : workers_left p ≡ 0 = ground (arith, a) in
        let none_running : length p.running ≡ 0 = ground (arith, idle) in
        ground (
          arith,
          a,
          total_none weight p.sending (ground (arith, idle)),
          total_none (worth weight) p.running none_running,
          total_none failure p.running none_running,
          total_none (λ _. 1) p.running none_running,
          total_ones targets,
        )

  -- While the context is not cancelled, the feeder leaves nothing behind.
  pub Steps-IsFeeding :
      (n : ℕ) (targets : List EndpointScanTarget) {p : BoundedWorkerPool T}
      → Steps verdicts (new_pool n targets) p
      → p.cancelled ≡ false
      → IsFeeding p.feeder
  Steps-IsFeeding n targets s u = (Steps-IsAccounted (λ _. 0) n targets s u).1
