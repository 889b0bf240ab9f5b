-- ===== src/Examples/Pools.antt =====
-- Runs of a pool of one worker over one host (workerpool.go).
use zero_agent_scan.Prelude.{true, ◌⊎◌, ◌≤◌, ℕ, ◌+◌, ◌≡◌, refl, false, [], ◌∷◌, none, some, arith}
use zero_agent_scan.Prelude.Int.{pos}
use zero_agent_scan.Scanner.Retries.{EndpointScanTarget, EndpointScanResult, Verdict}
use zero_agent_scan.Scanner.Pool.{
  feeding, finished, waiting, results_closed, returned, BoundedWorkerPool, new_pool, start_task,
  end_task, Step, Steps,
}
use zero_agent_scan.Scanner.Pool.Step.{
  feeds, closes_tasks, starts, exits, ends, sends, closes_results, collects, returns,
}
use zero_agent_scan.Scanner.Pool.Steps.{here, next}
use zero_agent_scan.Scanner.Pool.Totals.{total}
use zero_agent_scan.Scanner.Pool.Accounts.{worth, failure, execute_returned}
use zero_agent_scan.Scanner.Pool.Progress.{
  step_count, IsBounded, execute_goes_on, execute-IsBounded,
}
use zero_agent_scan.Scanner.Pool.Cancelled.{cancelled_pool, cancelled_never_returns}

abbrev server : EndpointScanTarget
server = record {
  ip_address = "10.0.0.9";
  hostname = "srv-1";
  port = 5986;
  protocol = "winrm_https";
  username = "svc";
  secret_value = "";
  allow_insecure_http = false;
}

abbrev offline_result : EndpointScanResult ℕ
offline_result = record {
  ip_address = "10.0.0.9";
  hostname = "srv-1";
  status = "offline";
  agentless_protocol = "winrm_https";
  error_message = "timeout";
  scanned_at = pos 0;
  telemetry = none;
}

abbrev unreachable : EndpointScanTarget → Verdict ℕ
unreachable t = record { result = some offline_result; error = some "timeout"; attempt_count = 3 }

abbrev launched : BoundedWorkerPool ℕ
launched = new_pool 1 (server ∷ [])

abbrev fed : BoundedWorkerPool ℕ
fed = record launched { feeder = feeding []; tasks = server ∷ [] }

abbrev working : BoundedWorkerPool ℕ
working = start_task server [] fed

abbrev ended : BoundedWorkerPool ℕ
ended = end_task [] [] (unreachable server) working

abbrev sent : BoundedWorkerPool ℕ
sent = record ended { sending = []; idle = 1; results = offline_result ∷ [] }

abbrev closed : BoundedWorkerPool ℕ
closed = record sent { feeder = finished }

abbrev left : BoundedWorkerPool ℕ
left = record closed { idle = 0 }

abbrev collected : BoundedWorkerPool ℕ
collected = record left { results = []; collected = offline_result ∷ [] }

abbrev done : BoundedWorkerPool ℕ
done = record collected { collector = returned }

Steps-working : Steps unreachable launched working
Steps-working =
    next (next here (feeds launched server [] refl (omega arith)))
      (starts fed server [] refl (omega arith) refl)

Steps-left : Steps unreachable launched left
Steps-left =
    let at_end =
      next Steps-working (ends working [] [] server (unreachable server) refl (λ _. refl)) in
    let at_sent = next at_end (sends ended [] [] offline_result refl (omega arith)) in
    next (next at_sent (closes_tasks sent refl)) (exits closed refl refl (omega arith))

Steps-done : Steps unreachable launched done
Steps-done =
    next
      (next (next Steps-left (collects left offline_result [] refl))
        (closes_results collected refl refl))
      (returns (record collected { collector = results_closed }) refl refl)

abbrev one_each : EndpointScanResult ℕ → ℕ
one_each res = 1

execute_returned_example :
    (total one_each done.collected ≡ total (worth unreachable one_each) (server ∷ []))
    × (done.completed + done.failed ≡ 1)
    × (done.failed ≡ total (failure unreachable) (server ∷ []))
execute_returned_example =
    execute_returned unreachable one_each 1 (server ∷ []) Steps-done (omega arith) refl refl

execute_goes_on_example :
    (step_count unreachable Steps-working ≤ 10)
    × ((working.cancelled ≡ true)
        ⊎ ((working.collector ≡ returned)
            ⊎ ((q : BoundedWorkerPool ℕ) × Step unreachable working q × (q.cancelled ≡ false))))
execute_goes_on_example = execute_goes_on unreachable 1 (server ∷ []) Steps-working

execute-IsBounded_example : IsBounded 1 working
execute-IsBounded_example = execute-IsBounded unreachable 1 (server ∷ []) Steps-working

-- The one worker waits, and there is nothing to wait for.
abbrev waits : BoundedWorkerPool ℕ
waits = cancelled_pool 1 server []

cancelled_never_returns_example : Steps unreachable launched waits × (waits.collector ≡ waiting)
cancelled_never_returns_example = cancelled_never_returns unreachable 1 server [] (omega arith) here
