-- ===== src/Fleet/Jobs/Simulation.antt =====
-- The simulated scan of a job and the cancellations that come between its stages.
use zero_agent_scan.Prelude.{
  ℕ, ◌+◌, ◌≤◌, ◌≡◌, ◌≢◌, String, true, false, some, List, [], ◌∷◌, lookup, insert,
  lookup-insert_self, ◌==◌, eq_iff, arith, refl, Bool-cases, inl, inr, sym, ap, ◌∙◌,
}
use zero_agent_scan.Prelude.Int.{ℤ}
use zero_agent_scan.Fleet.Records.{ScanJob, Repository}
use zero_agent_scan.Fleet.Jobs.{
  CreateScanJobRequest, Stage, mock_stages, new_job, create_scan_job, simulate_stage,
  simulate_found, cancel_scan_job, get_scan_job, advanced, cancelled,
}

-- The goroutine wakes up for its next stage, or a request cancels the job.
pub data JobEvent : Type 0 where
  wake : ℤ → JobEvent
  cancel : ℤ → JobEvent

-- Stages whose counts add up, stay within the hosts and end with all of them.
abbrev AreSound : ℕ → List Stage → Type 0
AreSound total [] = Unit
AreSound total (s ∷ []) = (s.scanned ≡ s.compliant + s.failed) × (s.scanned ≡ total)
AreSound total (s ∷ t ∷ rest) =
    (s.scanned ≡ s.compliant + s.failed) × (s.scanned ≤ total) × AreSound total (t ∷ rest)

pub record IsConsistent (job : ScanJob) : Type 0 where
  pub total : job.total_hosts ≡ 8
  pub adds_up : job.scanned_hosts ≡ job.compliant_hosts + job.failed_hosts
  pub within : job.scanned_hosts ≤ job.total_hosts
  pub whole : job.status ≡ "completed" → job.scanned_hosts ≡ job.total_hosts

-- While stages are left the job is not completed.
abbrev Waits : List Stage → ScanJob → Type 0
Waits [] job = Unit
Waits (s ∷ rest) job = job.status ≢ "completed"

abbrev Inv : List Stage → ScanJob → Type 0
Inv stages job = IsConsistent job × Waits stages job

AreSound-tail :
    (total : ℕ) (s : Stage) (rest : List Stage) → AreSound total (s ∷ rest) → AreSound total rest
AreSound-tail total s [] h = tt
AreSound-tail total s (t ∷ rest) h = h.2

advanced-Inv :
    (format : ℤ → String) (now : ℤ) (s : Stage) (rest : List Stage) (job : ScanJob)
    → AreSound 8 (s ∷ rest)
    → Inv (s ∷ rest) job
    → Inv rest (advanced format now s rest job)
advanced-Inv format now s [] job h (c, w) = (
  record {
    total = c.total;
    adds_up = h.0;
    within = omega (arith, h.1, c.total);
    whole = λ e. h.1 ∙ sym c.total;
  },
  tt,
)
advanced-Inv format now s (t ∷ rest) job h (c, w) = (
  record {
    total = c.total;
    adds_up = h.0;
    within = omega (arith, h.1, c.total);
    whole = λ e. absurd (w e);
  },
  w,
)

cancelled_open : ◌≢◌ {A = String} "cancelled" "completed"
cancelled_open e =
    let t : false ≡ true = ap (λ (s : String). s == "completed") e in absurd (ground arith)

running_open : ◌≢◌ {A = String} "running" "completed"
running_open e =
    let t : false ≡ true = ap (λ (s : String). s == "completed") e in absurd (ground arith)

cancelled-Inv :
    (now : ℤ) (stages : List Stage) (job : ScanJob)
    → Inv stages job
    → Inv stages (cancelled now job)
cancelled-Inv now [] job (c, w) = (
  record {
    total = c.total;
    adds_up = c.adds_up;
    within = c.within;
    whole = λ e. absurd (cancelled_open e);
  },
  tt,
)
cancelled-Inv now (s ∷ rest) job (c, w) = (
  record {
    total = c.total;
    adds_up = c.adds_up;
    within = c.within;
    whole = λ e. absurd (cancelled_open e);
  },
  cancelled_open,
)

abbrev pub IsCancelled : ScanJob → Type 0
IsCancelled job = job.status ≡ "cancelled"

module _ {P : Type 0} (format : ℤ → String) (id : String) where
  unfoldable pub run_events : List JobEvent → List Stage → Repository P → Repository P
  run_events [] stages r = r
  run_events (wake now ∷ es) [] r = run_events es [] r
  run_events (wake now ∷ es) (s ∷ rest) r =
      let (r', left) = simulate_stage format now id s rest r in run_events es left r'
  run_events (cancel now ∷ es) stages r = run_events es stages (cancel_scan_job now id r).0

  abbrev pub Holds : (ScanJob → Type 0) → Repository P → Type 0
  Holds Q r = (job : ScanJob) × (lookup id r.scans ≡ some job) × Q job

  Holds-insert :
      (Q : ScanJob → Type 0) (job : ScanJob) (r : Repository P)
      → Q job
      → Holds Q (record r { scans = insert id job r.scans })
  Holds-insert Q job r q = (job, lookup-insert_self id job r.scans, q)

  simulate_stage-Inv :
      (now : ℤ) (s : Stage) (rest : List Stage) (r : Repository P)
      → AreSound 8 (s ∷ rest)
      → Holds (Inv (s ∷ rest)) r
      → let (r', left) = simulate_stage format now id s rest r in
        AreSound 8 left × Holds (Inv left) r'
  unfolding simulate_stage simulate_found
  simulate_stage-Inv now s rest r sound (job, e, inv) =
      elim (Bool-cases (job.status == "cancelled")) [
        | inl gone ↦ rw (e, gone) (tt, (job, e, (inv.0, tt)))
        | inr running ↦
            rw (e, running)
              (
                AreSound-tail 8 s rest sound,
                Holds-insert (Inv rest) (advanced format now s rest job) r
                    (advanced-Inv format now s rest job sound inv),
              )
      ]

  cancel_scan_job-Holds :
      (Q R : ScanJob → Type 0) (now : ℤ) (r : Repository P)
      → ((job : ScanJob) → Q job → R (cancelled now job))
      → Holds Q r
      → Holds R (cancel_scan_job now id r).0
  unfolding cancel_scan_job get_scan_job
  cancel_scan_job-Holds Q R now r f (job, e, q) =
      rw e (Holds-insert R (cancelled now job) r (f job q))

  run_events-Inv :
      (es : List JobEvent) (stages : List Stage) (r : Repository P)
      → AreSound 8 stages
      → Holds (Inv stages) r
      → Holds IsConsistent (run_events es stages r)
  unfolding run_events
  run_events-Inv [] stages r sound (job, e, inv) = (job, e, inv.0)
  run_events-Inv (wake now ∷ es) [] r sound h = run_events-Inv es [] r sound h
  run_events-Inv (wake now ∷ es) (s ∷ rest) r sound h =
      let step = simulate_stage-Inv now s rest r sound h in
      run_events-Inv es (simulate_stage format now id s rest r).1
        (simulate_stage format now id s rest r).0 step.0 step.1
  run_events-Inv (cancel now ∷ es) stages r sound h =
      run_events-Inv es stages (cancel_scan_job now id r).0 sound
        (cancel_scan_job-Holds (Inv stages) (Inv stages) now r (cancelled-Inv now stages) h)

  -- However the stages of a new job's simulation and cancellations follow one another, the job is
  -- there, its compliant and failed hosts add up to those scanned, these are no more than its total
  -- of 8, and all of them where the job is completed.
  pub run_events-IsConsistent :
      (now : ℤ) (req : CreateScanJobRequest) (es : List JobEvent) (r : Repository P)
      → Holds IsConsistent (
          run_events es
            (mock_stages req.target_cidr req.protocol)
            (create_scan_job format now id req r))
  unfolding create_scan_job
  run_events-IsConsistent now req es r =
      run_events-Inv es (mock_stages req.target_cidr req.protocol)
        (create_scan_job format now id req r) (ground arith)
        (Holds-insert (Inv (mock_stages req.target_cidr req.protocol)) (new_job format now id req) r
          (
            record {
              total = refl;
              adds_up = omega arith;
              within = omega arith;
              whole = λ e. absurd (running_open e);
            },
            running_open,
          ))

  simulate_stage-IsCancelled :
      (now : ℤ) (s : Stage) (rest : List Stage) (r : Repository P)
      → Holds IsCancelled r
      → Holds IsCancelled (simulate_stage format now id s rest r).0
  unfolding simulate_stage simulate_found
  simulate_stage-IsCancelled now s rest r (job, e, c) =
      rw (e, (eq_iff job.status "cancelled").1 c) (job, e, c)

  stays-IsCancelled :
      (es : List JobEvent) (stages : List Stage) (r : Repository P)
      → Holds IsCancelled r
      → Holds IsCancelled (run_events es stages r)
  unfolding run_events
  stays-IsCancelled [] stages r h = h
  stays-IsCancelled (wake now ∷ es) [] r h = stays-IsCancelled es [] r h
  stays-IsCancelled (wake now ∷ es) (s ∷ rest) r h =
      stays-IsCancelled es (simulate_stage format now id s rest r).1
        (simulate_stage format now id s rest r).0 (simulate_stage-IsCancelled now s rest r h)
  stays-IsCancelled (cancel now ∷ es) stages r h =
      stays-IsCancelled es stages (cancel_scan_job now id r).0
        (cancel_scan_job-Holds IsCancelled IsCancelled now r (λ job c. refl) h)

  -- A job that is cancelled, at whatever stage, stays cancelled through all later stages of its
  -- simulation and further cancellations.
  pub cancel_scan_job_final :
      (now : ℤ) (job : ScanJob) (es : List JobEvent) (stages : List Stage) (r : Repository P)
      → get_scan_job id r ≡ some job
      → Holds IsCancelled (run_events (cancel now ∷ es) stages r)
  unfolding run_events get_scan_job
  cancel_scan_job_final now job es stages r e =
      stays-IsCancelled es stages (cancel_scan_job now id r).0
        (cancel_scan_job-Holds (λ j. Unit) IsCancelled now r (λ j c. refl) (job, e, tt))
