-- ===== src/Examples/Clients.antt =====
-- Clients of the rate limit of the server, 60 requests a minute and 20 at once (ratelimit.go).
use zero_agent_scan.Prelude.{
  ℕ, ◌+◌, ◌-◌, ◌*◌, ◌^◌, ◌/◌, ◌≤◌, ◌≡◌, refl, some, List, [], ◌∷◌, lookup, insert, arith,
}
use zero_agent_scan.Prelude.Int.{pos}
use zero_agent_scan.Prelude.Text.{trim, first_part}
use zero_agent_scan.Middleware.{
  RateLimiter, allowed, refused, token, new_rate_limiter, allow, allow_found, refilled, cleanup,
  expire, Request, extract_client_key, rate_limit_mutating,
}
use zero_agent_scan.Middleware.Budget.{Event, request, tidy, event, passed, IsFair}
use zero_agent_scan.Middleware.Passed.{passed_le_budget}

abbrev second : ℕ
second = 10 ^ 9

abbrev pub small : RateLimiter
small = record { rate = 60; capacity = 2; entries = [] }

small-IsFair : IsFair small
small-IsFair = record {
  some_rate = omega arith;
  some_capacity = omega arith;
  refills = omega arith;
}

-- Two at once, one after a second, and a burst again after the cleanup.
abbrev burst : List Event
burst =
    request 0 "a"
    ∷ request 0 "b"
    ∷ request 0 "a"
    ∷ request 0 "a"
    ∷ request second "a"
    ∷ tidy (700 * second) ("a" ∷ "b" ∷ [])
    ∷ request (700 * second) "a"
    ∷ request (700 * second) "a"
    ∷ []

burst_passed : passed "a" burst small ≡ 5
unfolding passed event allow allow_found refilled cleanup expire lookup insert
burst_passed = refl

passed_le_budget_example : passed "a" burst small * token ≤ 2 * token + (700 * second - 0) * 60
unfolding lookup
passed_le_budget_example =
    passed_le_budget "a" 0 burst small small-IsFair
      (
        omega arith,
        (
          omega arith,
          (
            omega arith,
            (omega arith, (omega arith, (omega arith, (omega arith, (omega arith, tt))))),
          ),
        ),
      )
      refl

-- A bucket with a quarter of a token, which a second does not fill.
abbrev slow : RateLimiter
slow = record {
  rate = 6;
  capacity = 1;
  entries = ("a", record { tokens = token / 4; last_update = 0 }) ∷ [];
}

slow-IsFair : IsFair slow
slow-IsFair = record { some_rate = omega arith; some_capacity = omega arith; refills = omega arith }

refused_slow : (allow 0 "a" slow).1 ≡ refused 7
unfolding allow allow_found refilled lookup insert
refused_slow = refl

-- The seconds named are too few.
refused_after : (allow (7 * second) "a" (allow 0 "a" slow).0).1 ≡ refused 0
unfolding allow allow_found refilled lookup insert
refused_after = refl

-- A client that names another address is another client.
abbrev forged : Request
forged = record {
  method = "POST";
  authorization = "";
  forwarded_for = " 1.2.3.4 , 5.6.7.8";
  remote_addr = "9.9.9.9:80";
}

forged_key : extract_client_key (λ address. some "9.9.9.9") forged ≡ "ip:1.2.3.4"
unfolding extract_client_key trim first_part
forged_key = refl

forged_passes :
    (rate_limit_mutating (λ address. some "9.9.9.9") 5 forged (new_rate_limiter (pos 60) (pos 0))).1
    ≡ some (allowed 19)
unfolding rate_limit_mutating extract_client_key trim first_part allow allow_found lookup insert
    new_rate_limiter
forged_passes = refl
