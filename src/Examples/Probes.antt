-- ===== src/Examples/Probes.antt =====
-- Probes of one host, and a limiter of one token (workerpool.go, ratelimiter.go).
use zero_agent_scan.Prelude.{
  ℕ, zero, suc, ◌+◌, ◌*◌, ◌/◌, ◌^◌, ◌≤◌, ◌<◌, String, ◌≡◌, refl, true, false, Option, none, some,
  arith,
}
use zero_agent_scan.Prelude.Int.{pos, negsuc}
use zero_agent_scan.Prelude.Text.{lower_codes}
use zero_agent_scan.Scanner.Retries.{
  EndpointScanTarget, Reply, Verdict, is_authentication_failure, attempts, process_task_with_retry,
  calculate_backoff,
}
use zero_agent_scan.Scanner.Attempts.{
  stops_at, NoStopBefore, verdict_at, process_task_with_retry_lem,
}
use zero_agent_scan.Scanner.Limiter.{
  SubnetRateLimiter, new_subnet_rate_limiter, acquire_send, acquire_count, release_receive,
  release_count, Step, Reach, probes_bounded,
}

abbrev host : EndpointScanTarget
host = record {
  ip_address = "10.0.0.1";
  hostname = "pc-1";
  port = 5986;
  protocol = "winrm_https";
  username = "svc";
  secret_value = "";
  allow_insecure_http = false;
}

-- The first attempt times out, the second is refused.
abbrev probe : ℕ → Reply ℕ
probe zero = record { result = none; error = some "timeout" }
probe (suc n) = record { result = none; error = some "HTTP 401 Unauthorized" }

abbrev running : ℕ → Option String
running n = none

abbrev shown : ℕ → String
shown n = "n"

abbrev ended : Verdict ℕ
ended = process_task_with_retry probe running shown (pos 0) host 5

ended_after_two : ended.attempt_count ≡ 2
unfolding process_task_with_retry attempts is_authentication_failure lower_codes
ended_after_two = refl

unauthorized : is_authentication_failure "HTTP 401 Unauthorized" ≡ true
unfolding is_authentication_failure lower_codes
unauthorized = refl

timeout_goes_on : NoStopBefore probe running shown (pos 0) host 5 1
unfolding is_authentication_failure lower_codes
timeout_goes_on = (tt, refl)

process_task_with_retry_example :
    (i : ℕ) × (i ≤ 5)
    × (stops_at probe running shown (pos 0) host 5 i ≡ true)
    × NoStopBefore probe running shown (pos 0) host 5 i
    × (ended ≡ verdict_at probe running shown (pos 0) host 5 i ended)
    × (ended.attempt_count ≡ suc i)
process_task_with_retry_example =
    process_task_with_retry_lem probe running shown (pos 0) host 5 ended

abbrev half : ℕ → ℕ
half n = n / 2

half_in_range : (n : ℕ) → 0 < n → half n < n
half_in_range n h = omega (arith, h)

-- The base doubled 35 times does not fit: the wait is negative, which is none at all.
overflowed :
    calculate_backoff half 35 (300 * 10 ^ 6) (pos (3 * 10 ^ 9)) ≡ negsuc 8138822563309551615
unfolding calculate_backoff
overflowed = refl

abbrev idle : SubnetRateLimiter
idle = new_subnet_rate_limiter (pos 1)

abbrev one_sent : SubnetRateLimiter
one_sent = record idle { sem = 1; entering = 1 }

one_sends : acquire_send idle ≡ some one_sent
unfolding acquire_send new_subnet_rate_limiter
one_sends = refl

abbrev probing : SubnetRateLimiter
probing = acquire_count one_sent

Reach-probing : Reach (pos 1) probing
unfolding new_subnet_rate_limiter
Reach-probing =
    Reach.step (Reach.step Reach.start (Step.sends idle one_sent one_sends))
      (Step.counts one_sent (omega arith))

probes_bounded_example :
    (probing.entering + probing.holding ≤ 1) × (probing.holding ≤ probing.peak_count)
probes_bounded_example = probes_bounded Reach-probing

-- A probe that has given its token back and is not yet uncounted is counted beside the next one:
-- the peak of a limiter of one token is two.
abbrev received : SubnetRateLimiter
received = release_receive probing

abbrev resent : SubnetRateLimiter
resent = record received { sem = 1; entering = 1 }

overshoot : (acquire_count resent).peak_count ≡ 2
unfolding acquire_count release_receive new_subnet_rate_limiter
overshoot = refl

abbrev quiet : SubnetRateLimiter
quiet = release_count received

Reach-quiet : Reach (pos 1) quiet
unfolding acquire_count release_receive new_subnet_rate_limiter
Reach-quiet =
    Reach.step (Reach.step Reach-probing (Step.receives probing (omega arith)))
      (Step.uncounts received (omega arith))

abbrev NoneIn : ℕ → Type 0
NoneIn n = n ≡ 0

entering_none : NoneIn quiet.entering
unfolding acquire_count release_receive release_count new_subnet_rate_limiter
entering_none = refl

holding_none : NoneIn quiet.holding
unfolding acquire_count release_receive release_count new_subnet_rate_limiter
holding_none = refl

leaving_none : NoneIn quiet.leaving
unfolding acquire_count release_receive release_count new_subnet_rate_limiter
leaving_none = refl
