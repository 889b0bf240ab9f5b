-- ===== src/Scanner/Limiter.antt =====
-- apps/gateway/internal/scanner/ratelimiter.go: `SubnetRateLimiter`, one step at a time.
-- The buffered channel is the number of its tokens. `Acquire` sends to the channel and then updates
-- the counters under the mutex, and `Release` receives and then updates: between the two stands
-- any step of another goroutine, so each half is a step of its own. `entering` and `leaving` count
-- the goroutines between their halves, `holding` those that have acquired and not yet released.
use mathlib.Core.Path.{subst}
use zero_agent_scan.Prelude.{
  ℕ, zero, suc, ◌+◌, ◌-◌, ◌≤◌, ◌<◌, ◌≡◌, refl, Option, none, some, arith, ltb, if◌then◌else◌,
  if_both, Bool-cases, inl, inr, ap, sym, ◌∙◌, ◌↔◌,
}
use zero_agent_scan.Prelude.Int.{ℤ, pos, negsuc}

pub record SubnetRateLimiter : Type 0 where
  pub max_concurrency : ℕ
  pub sem : ℕ
  pub active_count : ℕ
  pub peak_count : ℕ
  pub entering : ℕ
  pub holding : ℕ
  pub leaving : ℕ

abbrev pub capacity_of : ℤ → ℕ
capacity_of (pos zero) = 20
capacity_of (pos (suc n)) = suc n
capacity_of (negsuc n) = 20

unfoldable pub new_subnet_rate_limiter : ℤ → SubnetRateLimiter
new_subnet_rate_limiter max_concurrency = record {
  max_concurrency = capacity_of max_concurrency;
  sem = 0;
  active_count = 0;
  peak_count = 0;
  entering = 0;
  holding = 0;
  leaving = 0;
}

-- `r.sem <- struct{}{}`: it blocks (`none`) while the channel is full.
unfoldable pub acquire_send : SubnetRateLimiter → Option SubnetRateLimiter
acquire_send r =
    if ltb r.sem r.max_concurrency
    then some (record r { sem = suc r.sem; entering = suc r.entering })
    else none

-- The rest of `Acquire`, for a goroutine that has sent.
unfoldable pub acquire_count : SubnetRateLimiter → SubnetRateLimiter
acquire_count r =
    let active = suc r.active_count in
    record r {
      active_count = active;
      peak_count = if ltb r.peak_count active then active else r.peak_count;
      entering = r.entering - 1;
      holding = suc r.holding;
    }

-- `<-r.sem` of `Release`, with its `default` where the channel is empty.
unfoldable pub release_receive : SubnetRateLimiter → SubnetRateLimiter
release_receive r =
    if ltb 0 r.sem
    then record r { sem = r.sem - 1; holding = r.holding - 1; leaving = suc r.leaving }
    else r

-- The rest of `Release`, for a goroutine that has received.
unfoldable pub release_count : SubnetRateLimiter → SubnetRateLimiter
release_count r = record r {
  active_count = if ltb 0 r.active_count then r.active_count - 1 else r.active_count;
  leaving = r.leaving - 1;
}

-- A step of some goroutine. `Execute` releases what it has acquired, and only that.
pub data Step : SubnetRateLimiter → SubnetRateLimiter → Type 0 where
  sends : (r s : SubnetRateLimiter) → acquire_send r ≡ some s → Step r s
  counts : (r : SubnetRateLimiter) → 0 < r.entering → Step r (acquire_count r)
  receives : (r : SubnetRateLimiter) → 0 < r.holding → Step r (release_receive r)
  uncounts : (r : SubnetRateLimiter) → 0 < r.leaving → Step r (release_count r)

pub data Reach (limit : ℤ) : SubnetRateLimiter → Type 0 where
  start : Reach limit (new_subnet_rate_limiter limit)
  step : {r s : SubnetRateLimiter} → Reach limit r → Step r s → Reach limit s

-- What every reachable state has in common.
pub record IsBalanced (r : SubnetRateLimiter) : Type 0 where
  pub tokens : r.sem ≡ r.entering + r.holding
  pub active : r.active_count ≡ r.holding + r.leaving
  pub full : r.sem ≤ r.max_concurrency
  pub peak : r.active_count ≤ r.peak_count

sent-IsBalanced :
    (r : SubnetRateLimiter)
    → IsBalanced r
    → r.sem < r.max_concurrency
    → IsBalanced (record r { sem = suc r.sem; entering = suc r.entering })
sent-IsBalanced r b h = record {
  tokens = ground (arith, b.tokens);
  active = b.active;
  full = ground arith;
  peak = b.peak;
}

acquire_send-some :
    (r s : SubnetRateLimiter)
    → acquire_send r ≡ some s
    → (r.sem < r.max_concurrency) × (record r { sem = suc r.sem; entering = suc r.entering } ≡ s)
unfolding acquire_send
acquire_send-some r s e = elim (Bool-cases (ltb r.sem r.max_concurrency)) [
  | inl b ↦ (ground arith, ground arith)
  | inr b ↦ absurd (ground arith)
]

received-IsBalanced :
    (r : SubnetRateLimiter)
    → IsBalanced r
    → 0 < r.holding
    → IsBalanced (record r { sem = r.sem - 1; holding = r.holding - 1; leaving = suc r.leaving })
received-IsBalanced r b h = record {
  tokens = ground (arith, b.tokens);
  active = ground (arith, b.active);
  full = ground (arith, b.full);
  peak = b.peak;
}

Step-IsBalanced : {r s : SubnetRateLimiter} → Step r s → IsBalanced r → IsBalanced s
unfolding acquire_count release_receive release_count
Step-IsBalanced (sends r s e) b =
    let (h, same) = acquire_send-some r s e in subst IsBalanced same (sent-IsBalanced r b h)
Step-IsBalanced (counts r h) b = record {
  tokens = ground (arith, b.tokens);
  active = ground (arith, b.active);
  full = b.full;
  peak = ground (arith, b.peak);
}
Step-IsBalanced (receives r h) b = if_both IsBalanced (ltb 0 r.sem) (received-IsBalanced r b h) b
Step-IsBalanced (uncounts r h) b = record {
  tokens = b.tokens;
  active = ground (arith, b.active);
  full = b.full;
  peak = ground (arith, b.peak);
}

Step-max_concurrency : {r s : SubnetRateLimiter} → Step r s → s.max_concurrency ≡ r.max_concurrency
unfolding acquire_count release_receive release_count
Step-max_concurrency (sends r s e) =
    let (h, same) = acquire_send-some r s e in
    ap (λ (t : SubnetRateLimiter). t.max_concurrency) (sym same)
Step-max_concurrency (counts r h) = refl
Step-max_concurrency (receives r h) =
    if_both (λ (t : SubnetRateLimiter). t.max_concurrency ≡ r.max_concurrency) (ltb 0 r.sem) refl
      refl
Step-max_concurrency (uncounts r h) = refl

Reach-IsBalanced :
    {limit : ℤ} {r : SubnetRateLimiter}
    → Reach limit r
    → IsBalanced r × (r.max_concurrency ≡ capacity_of limit)
unfolding new_subnet_rate_limiter
Reach-IsBalanced start =
    (record { tokens = refl; active = refl; full = omega arith; peak = omega arith }, refl)
Reach-IsBalanced (step p q) =
    let (b, m) = Reach-IsBalanced p in (Step-IsBalanced q b, Step-max_concurrency q ∙ m)

module _ {limit : ℤ} {r : SubnetRateLimiter} (reached : Reach limit r) where
  -- In every reachable state the probes that run are at most the configured limit, which is 20
  -- where the configured number is not positive, and the peak is at least their number.
  pub probes_bounded : (r.entering + r.holding ≤ capacity_of limit) × (r.holding ≤ r.peak_count)
  probes_bounded =
      let (b, m) = Reach-IsBalanced reached in
      (ground (arith, b.tokens, b.full, m), ground (arith, b.active, b.peak))

  -- A reachable state where no goroutine holds a token or is on its way has given all tokens back
  -- and counts no active session.
  pub tokens_return :
      r.entering ≡ 0 → r.holding ≡ 0 → r.leaving ≡ 0 → (r.sem ≡ 0) × (r.active_count ≡ 0)
  tokens_return e h l =
      let (b, m) = Reach-IsBalanced reached in (ground (arith, b.tokens), ground (arith, b.active))

  -- A goroutine of a reachable state can acquire a token without blocking if and only if fewer
  -- than the limit are in use.
  pub acquire_unblocked :
      (r.entering + r.holding < capacity_of limit)
      ↔ ((s : SubnetRateLimiter) × (acquire_send r ≡ some s))
  unfolding acquire_send
  acquire_unblocked =
      let (b, m) = Reach-IsBalanced reached in
      (
        (λ h.
            (record r { sem = suc r.sem; entering = suc r.entering }, ground (arith, b.tokens, m))),
        (λ (s, e). let (h, same) = acquire_send-some r s e in ground (arith, b.tokens, m)),
      )
