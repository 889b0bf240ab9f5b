-- ===== src/Scanner/Pool/Cancelled.antt =====
-- A run of `Execute` (workerpool.go) whose feeder has gone at `ctx.Done()`: `tasksCh` stays open,
-- and the workers that wait for a task of it are never done.
use zero_agent_scan.Prelude.{ℕ, ◌<◌, ◌≡◌, refl, true, List, ◌∷◌, length, arith}
use zero_agent_scan.Scanner.Retries.{EndpointScanTarget, Verdict}
use zero_agent_scan.Scanner.Pool.{
  Feeder, feeding, finished, gone, waiting, BoundedWorkerPool, new_pool, workers_left, Step, Steps,
}
use zero_agent_scan.Scanner.Pool.Step.{
  feeds, stops_feeding, closes_tasks, starts, quits, exits, ends, sends, closes_results, collects,
  returns, cancels,
}
use zero_agent_scan.Scanner.Pool.Steps.{here, next}
use zero_agent_scan.Scanner.Pool.Totals.{length_middle}

-- The feeder has gone and left the channel open.
abbrev IsGone : Feeder → Type 0
IsGone (feeding targets) = ⊥
IsGone finished = ⊥
IsGone (gone targets) = Unit

module _ {T : Type 0} where
  -- The context ends before a target is fed, and the feeder sees it.
  abbrev pub cancelled_pool : ℕ → EndpointScanTarget → List EndpointScanTarget → BoundedWorkerPool T
  cancelled_pool n t rest = record (new_pool n (t ∷ rest)) {
    cancelled = true;
    feeder = gone (t ∷ rest);
  }

module _ {T : Type 0} (verdicts : EndpointScanTarget → Verdict T) where
  -- Fewer tasks are left in the open channel than there are workers, which quit at one task each.
  abbrev IsStuck : BoundedWorkerPool T → Type 0
  IsStuck p =
      IsGone p.feeder
      × (p.cancelled ≡ true)
      × (length p.tasks < workers_left p)
      × (p.collector ≡ waiting)

  Step-IsStuck : {p q : BoundedWorkerPool T} → Step verdicts p q → IsStuck p → IsStuck q
  Step-IsStuck (feeds p t rest e room) b = absurd (ground (arith, b))
  Step-IsStuck (stops_feeding p t rest e c) b = ground (arith, b)
  Step-IsStuck (closes_tasks p e) b = absurd (ground (arith, b))
  Step-IsStuck (starts p t rest e h c) b = absurd (ground (arith, b))
  Step-IsStuck (quits p t rest e h c) b = ground (arith, b)
  Step-IsStuck (exits p e f h) b = absurd (ground (arith, b))
  Step-IsStuck (ends p before after t v e same) b = ground (arith, b, length_middle before after t)
  Step-IsStuck (sends p before after res e room) b =
      ground (arith, b, length_middle before after res)
  Step-IsStuck (closes_results p z w) b = absurd (ground (arith, b))
  Step-IsStuck (collects p res rest e) b = ground (arith, b)
  Step-IsStuck (returns p e c) b = absurd (ground (arith, b))
  Step-IsStuck (cancels p e) b = absurd (ground (arith, b))

  Steps-IsStuck : {p q : BoundedWorkerPool T} → IsStuck p → Steps verdicts p q → IsStuck q
  Steps-IsStuck b here = b
  Steps-IsStuck b (next s q) = Step-IsStuck q (Steps-IsStuck b s)

  -- A pool of some workers with targets can come to the state in which the context has ended and
  -- the feeder has gone before a target was fed, and from there it never returns: whatever steps
  -- follow, the collector waits.
  pub cancelled_never_returns :
      (n : ℕ) (t : EndpointScanTarget) (rest : List EndpointScanTarget) {q : BoundedWorkerPool T}
      → 0 < n
      → Steps verdicts (cancelled_pool n t rest) q
      → Steps verdicts (new_pool n (t ∷ rest)) (cancelled_pool n t rest) × (q.collector ≡ waiting)
  cancelled_never_returns n t rest h s = (
    next (next here (cancels (new_pool n (t ∷ rest)) refl))
        (stops_feeding (record (new_pool n (t ∷ rest)) { cancelled = true }) t rest refl refl),
    (Steps-IsStuck {p = cancelled_pool n t rest} (ground arith) s).3,
  )
