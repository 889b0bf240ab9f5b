-- ===== src/Middleware/Waiting.antt =====
-- A refused client that waits (ratelimit.go).
use zero_agent_scan.Prelude.{
  ℕ, ◌+◌, ◌-◌, ◌*◌, ◌/◌, ◌^◌, ◌≤◌, ◌<◌, ◌≡◌, ◌≢◌, String, true, false, Option, none, some, leb,
  lookup, lookup-insert, eq_refl, arith, ap, Bool-cases, inl, inr,
}
use zero_agent_scan.Middleware.{
  Entry, RateLimiter, token, Verdict, allowed, refused, refilled, write, allow, allow_found,
}
use native.Mathlib.Nat.{lt-mul-div-succ}
use zero_agent_scan.Middleware.Budget.{is_allowed, IsFair, times_mono}

abbrev seconds : Verdict → ℕ
seconds (allowed n) = 0
seconds (refused n) = n

-- A client whose bucket is known is let pass when what flowed in since makes up a token.
allow-Enough :
    (key : String) (later tokens now : ℕ) (rl : RateLimiter)
    → 0 < rl.capacity
    → token ≤ tokens + (later - now) * rl.rate
    → is_allowed (allow later key (write key tokens now rl)).1 ≡ true
unfolding allow allow_found refilled
allow-Enough key later tokens now rl c h =
    rw
      (
        lookup-insert key key (record { tokens = tokens; last_update = now }) rl.entries,
        eq_refl key,
      )
      (ground arith)

-- The seconds that are named, and one more, fill the bucket up to a token.
waited :
    (missing rate span : ℕ)
    → 0 < rate
    → (missing / (rate * 10 ^ 9) + 1) * 10 ^ 9 ≤ span
    → missing ≤ span * rate
waited missing rate span r h =
    let pos : 0 < rate * 10 ^ 9 = ground arith in
    let enough : missing < rate * 10 ^ 9 * (missing / (rate * 10 ^ 9) + 1) =
      lt-mul-div-succ missing pos in
    let flow : (missing / (rate * 10 ^ 9) + 1) * 10 ^ 9 * rate ≤ span * rate =
      times_mono ((missing / (rate * 10 ^ 9) + 1) * 10 ^ 9) span rate h in
    let same : rate * 10 ^ 9 * (missing / (rate * 10 ^ 9) + 1)
        ≡ (missing / (rate * 10 ^ 9) + 1) * 10 ^ 9 * rate =
      grind arith in
    omega arith

allowed_not_refused : (m n : ℕ) → allowed m ≢ refused n
allowed_not_refused m n e = let differ : true ≡ false = ap is_allowed e in absurd (ground arith)

allow_found_again :
    (now later n : ℕ) (key : String) (o : Option Entry) (rl : RateLimiter)
    → IsFair rl
    → (allow_found now key o rl).1 ≡ refused n
    → (n + 1) * 10 ^ 9 ≤ later - now
    → is_allowed (allow later key (allow_found now key o rl).0).1 ≡ true
unfolding allow_found
allow_found_again now later n key none rl f e h = absurd (allowed_not_refused _ _ e)
allow_found_again now later n key (some old) rl f e h =
    elim (Bool-cases (leb token (refilled now rl old))) [
      | inl enough ↦
          absurd (allowed_not_refused ((refilled now rl old - token) / token) n (rw enough at e))
      | inr few ↦
          let k : (token - refilled now rl old) / (rl.rate * 10 ^ 9) ≡ n =
            ap seconds (rw few at e) in
          let enough =
            waited (token - refilled now rl old) rl.rate (later - now) f.some_rate (rw k h) in
          rw few (
            allow-Enough key later (refilled now rl old) now rl f.some_capacity
              (omega (arith, enough)))
    ]

-- A client that is refused, told to wait for some seconds, and that sends nothing for one second
-- longer than that, is let pass.
pub allow_again :
    (now later n : ℕ) (key : String) (rl : RateLimiter)
    → IsFair rl
    → (allow now key rl).1 ≡ refused n
    → (n + 1) * 10 ^ 9 ≤ later - now
    → is_allowed (allow later key (allow now key rl).0).1 ≡ true
unfolding allow allow_found
allow_again now later n key rl f e h =
    allow_found_again now later n key (lookup key rl.entries) rl f e h
