-- ===== src/Middleware.antt =====
-- apps/api/internal/middleware/ratelimit.go: a bucket of tokens for each client. Tokens are counted
-- in units of 1/(60 * 10^9), so that a nanosecond adds as many units as requests are allowed per
-- minute, and Go's `float64` is exact. Times are readings of the monotonic clock in nanoseconds.
pub mod Budget
pub mod Passed
pub mod Waiting
use Prim.Native.String.{◌++◌ as ◌+++◌}
use zero_agent_scan.Prelude.{
  ℕ, zero, suc, ◌+◌, ◌-◌, ◌*◌, ◌/◌, ◌^◌, String, Bool, true, false, ◌||◌, Option, none, some, List,
  [], ◌∷◌, if◌then◌else◌, ltb, leb, Map, lookup, insert, remove, ◌==◌,
}
use zero_agent_scan.Prelude.Text.{trim, first_part}
use zero_agent_scan.Prelude.Int.{ℤ, pos, negsuc}

pub record Entry : Type 0 where
  pub tokens : ℕ
  pub last_update : ℕ

-- `rate` is in requests per minute, `capacity` in whole tokens.
pub record RateLimiter : Type 0 where
  pub rate : ℕ
  pub capacity : ℕ
  pub entries : Map Entry

-- The units of one token.
abbrev pub token : ℕ
token = 60 * 10 ^ 9

abbrev pub positive_or : ℕ → ℤ → ℕ
positive_or default (pos zero) = default
positive_or default (pos (suc n)) = suc n
positive_or default (negsuc n) = default

unfoldable pub new_rate_limiter : ℤ → ℤ → RateLimiter
new_rate_limiter per_minute burst = record {
  rate = positive_or 60 per_minute;
  capacity = positive_or 20 burst;
  entries = [];
}

-- What `Allow` returns: the tokens left, or the whole seconds after which to try again.
pub data Verdict : Type 0 where
  allowed : ℕ → Verdict
  refused : ℕ → Verdict

abbrev pub at_most : ℕ → ℕ → ℕ
at_most bound n = if ltb bound n then bound else n

unfoldable pub refilled : ℕ → RateLimiter → Entry → ℕ
refilled now rl e = at_most (rl.capacity * token) (e.tokens + (now - e.last_update) * rl.rate)

abbrev pub write : String → ℕ → ℕ → RateLimiter → RateLimiter
write key tokens now rl = record rl {
  entries = insert key (record { tokens = tokens; last_update = now }) rl.entries;
}

-- `time.Duration(missing/rate) * time.Second` cuts off below the second.
abbrev pub spend : ℕ → String → ℕ → RateLimiter → RateLimiter × Verdict
spend now key tokens rl =
    if leb token tokens
    then (write key (tokens - token) now rl, allowed ((tokens - token) / token))
    else (write key tokens now rl, refused ((token - tokens) / (rl.rate * 10 ^ 9)))

unfoldable pub allow_found : ℕ → String → Option Entry → RateLimiter → RateLimiter × Verdict
unfolding refilled
allow_found now key none rl =
    (write key (rl.capacity * token - token) now rl, allowed (rl.capacity - 1))
allow_found now key (some e) rl = spend now key (refilled now rl e) rl

unfoldable pub allow : ℕ → String → RateLimiter → RateLimiter × Verdict
unfolding allow_found lookup
allow now key rl = allow_found now key (lookup key rl.entries) rl

abbrev pub ten_minutes : ℕ
ten_minutes = 600 * 10 ^ 9

unfoldable pub expire : ℕ → String → Option Entry → RateLimiter → RateLimiter
unfolding remove
expire now key none rl = rl
expire now key (some e) rl =
    if ltb ten_minutes (now - e.last_update)
    then record rl { entries = remove key rl.entries }
    else rl

-- One round of `cleanupLoop`, over the keys in the order of the iteration.
unfoldable pub cleanup : ℕ → List String → RateLimiter → RateLimiter
unfolding expire lookup
cleanup now [] rl = rl
cleanup now (key ∷ keys) rl = cleanup now keys (expire now key (lookup key rl.entries) rl)

-- The seconds of the header `Retry-After` are at least one.
abbrev answer : Verdict → Verdict
answer (allowed n) = allowed n
answer (refused n) = refused (if ltb n 1 then 1 else n)

-- The request as the middleware reads it: two headers, empty where they are missing, and the address
-- of the connection.
pub record Request : Type 0 where
  pub method : String
  pub authorization : String
  pub forwarded_for : String
  pub remote_addr : String

-- `net.SplitHostPort` is a parameter, `none` for an address without a port.
module _ (split_host_port : String → Option String) where
  abbrev host_or : String → Option String → String
  host_or remote none = remote
  host_or remote (some host) = host

  unfoldable pub extract_client_key : Request → String
  unfolding trim first_part
  extract_client_key r =
      if r.authorization == ""
      then "ip:"
        +++ (if r.forwarded_for == ""
            then host_or r.remote_addr (split_host_port r.remote_addr)
            else trim (first_part b',' r.forwarded_for))
      else "user:" +++ r.authorization

  -- `none` stands for a method that is not limited.
  unfoldable pub rate_limit_mutating : ℕ → Request → RateLimiter → RateLimiter × Option Verdict
  unfolding allow extract_client_key
  rate_limit_mutating now r rl =
      if r.method == "GET" || r.method == "HEAD" || r.method == "OPTIONS"
      then (rl, none)
      else let (rl', v) = allow now (extract_client_key r) rl in (rl', some (answer v))
