-- ===== src/Scanner/Retries.antt =====
-- apps/gateway/internal/scanner/workerpool.go: the options of the pool, the wait between two
-- attempts, and `processTaskWithRetry`. Durations are nanoseconds. The probe of a host, the error
-- of a context that ends during a wait, the clock and the draws of `math/rand` are parameters.
use Prim.Native.String.{◌++◌}
use zero_agent_scan.Prelude.{
  ℕ, zero, suc, ◌+◌, ◌-◌, ◌*◌, ◌/◌, ◌%◌, ◌^◌, String, Bool, ◌||◌, Option, none, some, ltb, leb,
  if◌then◌else◌,
}
use zero_agent_scan.Prelude.Int.{ℤ, pos, negsuc, sub_ℕ, leb_ℤ, ltb_ℤ}
use zero_agent_scan.Prelude.Text.{codes, lower_codes, occurs}

pub record WorkerPoolOptions : Type 0 where
  pub concurrency : ℤ
  pub target_timeout : ℤ
  pub max_retries : ℤ
  pub backoff_base : ℤ
  pub max_backoff_limit : ℤ

abbrev pub positive_or : ℤ → ℕ → ℤ
positive_or n default = if leb_ℤ n (pos 0) then pos default else n

unfoldable pub complete_options : WorkerPoolOptions → WorkerPoolOptions
complete_options opts = record {
  concurrency = positive_or opts.concurrency 25;
  target_timeout = positive_or opts.target_timeout (15 * 10 ^ 9);
  max_retries = if ltb_ℤ opts.max_retries (pos 0) then pos 2 else opts.max_retries;
  backoff_base = positive_or opts.backoff_base (300 * 10 ^ 6);
  max_backoff_limit = opts.max_backoff_limit;
}

-- The signed 64-bit number that `n` wraps around to.
abbrev pub to_int64 : ℕ → ℤ
to_int64 n = let low = n % 2 ^ 64 in if ltb low (2 ^ 63) then pos low else sub_ℕ low (2 ^ 64)

abbrev pub with_jitter : (ℕ → ℕ) → ℤ → ℤ
with_jitter rand (pos n) =
    let range = n / 5 in if ltb 0 range then pos (n + rand (range * 2) - range) else pos n
with_jitter rand (negsuc n) = negsuc n

-- `base * 2^attempt` in 64 bits, cut at the limit, a fifth up or down. `rand n` is `rand.Int63n`.
unfoldable pub calculate_backoff : (ℕ → ℕ) → ℕ → ℕ → ℤ → ℤ
calculate_backoff rand attempt base limit =
    let backoff = to_int64 (base * 2 ^ attempt) in
    with_jitter rand (if ltb_ℤ limit backoff then limit else backoff)

abbrev mentions : String → String → Bool
mentions message word = occurs (codes word) (lower_codes message)

unfoldable pub is_authentication_failure : String → Bool
unfolding lower_codes
is_authentication_failure message =
    mentions message "unauthorized"
    || mentions message "forbidden"
    || mentions message "auth failed"
    || mentions message "invalid credentials"
    || mentions message "401"
    || mentions message "403"

pub record EndpointScanTarget : Type 0 where
  pub ip_address : String
  pub hostname : String
  pub port : ℕ
  pub protocol : String
  pub username : String
  pub secret_value : String
  pub allow_insecure_http : Bool

-- `telemetry` is all that a probe fills in besides; it is empty in a result of the pool's own.
pub record EndpointScanResult (T : Type 0) : Type 0 where
  pub ip_address : String
  pub hostname : String
  pub status : String
  pub agentless_protocol : String
  pub error_message : String
  pub scanned_at : ℤ
  pub telemetry : Option T

-- What `scanFn` returns: a result or nil, and the text of an error or nil.
pub record Reply (T : Type 0) : Type 0 where
  pub result : Option (EndpointScanResult T)
  pub error : Option String

-- What `processTaskWithRetry` returns, with `task.AttemptCount`, the calls of `scanFn` made.
pub record Verdict (T : Type 0) : Type 0 where
  pub result : Option (EndpointScanResult T)
  pub error : Option String
  pub attempt_count : ℕ

module _ {T : Type 0} where
  abbrev or_result :
      Option (EndpointScanResult T) → EndpointScanResult T → Option (EndpointScanResult T)
  or_result none own = some own
  or_result (some res) own = some res

module _ {T : Type 0} (scan_fn : ℕ → Reply T) (cancelled : ℕ → Option String)
    (show_count : ℕ → String) (now : ℤ) (target : EndpointScanTarget) where
  abbrev own_result : String → String → EndpointScanResult T
  own_result status message = record {
    ip_address = target.ip_address;
    hostname = target.hostname;
    status = status;
    agentless_protocol = target.protocol;
    error_message = message;
    scanned_at = now;
    telemetry = none;
  }

  abbrev pub auth_error : ℕ → Option (EndpointScanResult T) → String → Verdict T
  auth_error attempt res e = record {
    result =
        or_result res (own_result "auth_error" ("Authentication rejected by target host: " ++ e));
    error = some e;
    attempt_count = suc attempt;
  }

  abbrev pub offline : ℕ → Option (EndpointScanResult T) → String → Verdict T
  offline attempt res e = record {
    result = or_result res (
        own_result "offline"
          ("Host unreachable after " ++ show_count (suc attempt) ++ " attempts: " ++ e));
    error = some e;
    attempt_count = suc attempt;
  }

  -- What the body of the loop does with the reply of one attempt; `rest` is the next round.
  abbrev pub settle : ℕ → ℕ → Reply T → Verdict T → Verdict T
  settle max_retries attempt reply rest = elim reply.error [
    | none ↦ record { result = reply.result; error = none; attempt_count = suc attempt }
    | some e ↦
        if is_authentication_failure e
        then auth_error attempt reply.result e
        else if leb max_retries attempt
        then offline attempt reply.result e
        else elim (cancelled attempt) [
          | none ↦ rest
          | some c ↦ record { result = none; error = some c; attempt_count = suc attempt }
        ]
  ]

  -- The rounds from `attempt` on, with the number of rounds left as fuel; where it runs out is the
  -- return behind the loop.
  unfoldable pub attempts : ℕ → ℕ → ℕ → Verdict T
  unfolding is_authentication_failure
  attempts max_retries zero attempt = record {
    result = none;
    error = some "workerpool: maximum retries exceeded";
    attempt_count = attempt;
  }
  attempts max_retries (suc fuel) attempt =
      let rest = attempts max_retries fuel (suc attempt) in
      settle max_retries attempt (scan_fn attempt) rest

  unfoldable pub process_task_with_retry : ℕ → Verdict T
  unfolding attempts
  process_task_with_retry max_retries = attempts max_retries (suc max_retries) 0
