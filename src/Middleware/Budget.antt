-- ===== src/Middleware/Budget.antt =====
-- What one client can take from its bucket (ratelimit.go).
use mathlib.Core.Path.{subst}
use zero_agent_scan.Prelude.{
  ℕ, ◌+◌, ◌-◌, ◌*◌, ◌≤◌, ◌<◌, ◌≡◌, String, Bool, true, false, Option, none, some, List, [], ◌∷◌,
  if◌then◌else◌, leb, lookup, lookup-insert, ◌==◌, eq_refl, arith, refl, ◌∙◌, Bool-cases, inl, inr,
  tally,
}
use zero_agent_scan.Middleware.{
  Entry, RateLimiter, token, Verdict, allowed, refused, at_most, refilled, write, spend, allow,
  allow_found, cleanup,
}

-- A request of a client, or a round of the cleanup over some keys, each at its time.
pub data Event : Type 0 where
  request : ℕ → String → Event
  tidy : ℕ → List String → Event

abbrev pub time_of : Event → ℕ
time_of (request now key) = now
time_of (tidy now keys) = now

abbrev pub is_allowed : Verdict → Bool
is_allowed (allowed n) = true
is_allowed (refused n) = false

module _ (key : String) where
  -- The limiter after an event, and 1 where it let a request of the client pass.
  unfoldable pub event : Event → RateLimiter → RateLimiter × ℕ
  event (request now other) rl =
      let (rl', v) = allow now other rl in (rl', if other == key then tally (is_allowed v) else 0)
  event (tidy now keys) rl = (cleanup now keys rl, 0)

  -- How many requests of the client pass.
  unfoldable pub passed : List Event → RateLimiter → ℕ
  unfolding event
  passed [] rl = 0
  passed (e ∷ es) rl = let (rl', n) = event e rl in n + passed es rl'

-- The last time, where the events are in order from a time on.
abbrev pub end_of : ℕ → List Event → ℕ
end_of t [] = t
end_of t (e ∷ es) = end_of (time_of e) es

abbrev pub InOrder : ℕ → List Event → Type 0
InOrder t [] = Unit
InOrder t (e ∷ es) = (t ≤ time_of e) × InOrder (time_of e) es

-- The units that a client could spend at a time, for a capacity and a rate.
abbrev pub available : ℕ → ℕ → ℕ → Option Entry → ℕ
available t capacity rate none = capacity * token
available t capacity rate (some e) =
    at_most (capacity * token) (e.tokens + (t - e.last_update) * rate)

-- An entry is not from the future.
abbrev pub IsPast : ℕ → Option Entry → Type 0
IsPast t none = Unit
IsPast t (some e) = e.last_update ≤ t

pub available_later :
    (t now capacity rate : ℕ) (o : Option Entry)
    → t ≤ now
    → IsPast t o
    → available now capacity rate o ≤ available t capacity rate o + (now - t) * rate
available_later t now capacity rate none h p = omega arith
available_later t now capacity rate (some e) h p =
    let split : (now - e.last_update) * rate ≡ (t - e.last_update) * rate + (now - t) * rate =
      grind arith in
    ground (arith, split)

pub IsPast-later : (t now : ℕ) (o : Option Entry) → t ≤ now → IsPast t o → IsPast now o
IsPast-later t now none h p = tt
IsPast-later t now (some e) h p = omega arith

pub times_split :
    (t u v rate : ℕ) → t ≤ u → u ≤ v → (v - t) * rate ≡ (u - t) * rate + (v - u) * rate
times_split t u v rate h k = grind arith

pub times_mono : (n m rate : ℕ) → n ≤ m → n * rate ≤ m * rate
times_mono n m rate h =
    let split : m * rate ≡ n * rate + (m - n) * rate = grind arith in omega arith

no_time : (now rate : ℕ) → (now - now) * rate ≡ 0
no_time now rate = grind arith

-- A limiter that `NewRateLimiter` makes has both numbers; the cleanup forgets a client after ten
-- minutes, in which its bucket has to be full again.
pub record IsFair (rl : RateLimiter) : Type 0 where
  pub some_rate : 0 < rl.rate
  pub some_capacity : 0 < rl.capacity
  pub refills : rl.capacity ≤ 10 * rl.rate

pub IsFair-kept :
    (rl rl' : RateLimiter)
    → IsFair rl
    → rl'.rate ≡ rl.rate
    → rl'.capacity ≡ rl.capacity
    → IsFair rl'
IsFair-kept rl rl' f e k = record {
  some_rate = omega (arith, f.some_rate, e);
  some_capacity = omega (arith, f.some_capacity, k);
  refills = omega (arith, f.refills, e, k);
}

pub end_of_after : (t : ℕ) (es : List Event) → InOrder t es → t ≤ end_of t es
end_of_after t [] h = omega arith
end_of_after t (e ∷ es) h = omega (arith, h.0, end_of_after (time_of e) es h.1)

module _ (key : String) where
  -- What an event at a time may take from the client's budget.
  abbrev pub Within : ℕ → ℕ → RateLimiter → RateLimiter × ℕ → Type 0
  Within t now rl s =
      (s.1 * token + available now s.0.capacity s.0.rate (lookup key s.0.entries)
        ≤ available t rl.capacity rl.rate (lookup key rl.entries) + (now - t) * rl.rate)
      × IsPast now (lookup key s.0.entries)
      × (s.0.rate ≡ rl.rate)
      × (s.0.capacity ≡ rl.capacity)

  lookup-write :
      (other : String) (tokens now : ℕ) (rl : RateLimiter)
      → lookup key (write other tokens now rl).entries ≡ (
          if other == key
          then some (record { tokens = tokens; last_update = now })
          else lookup key rl.entries)
  lookup-write other tokens now rl = lookup-insert other key _ rl.entries

  pub Within-other :
      (t now tokens : ℕ) (other : String) (rl : RateLimiter)
      → t ≤ now
      → IsPast t (lookup key rl.entries)
      → (other == key) ≡ false
      → Within t now rl (write other tokens now rl, 0)
  Within-other t now tokens other rl h p e =
      rw (lookup-write other tokens now rl, e)
        (
          omega (arith, available_later t now rl.capacity rl.rate (lookup key rl.entries) h p),
          IsPast-later t now (lookup key rl.entries) h p,
          refl,
          refl,
        )

  -- A client that is written with its tokens, after a request that passes or not.
  Within-written :
      (t now tokens n : ℕ) (rl : RateLimiter)
      → n * token + at_most (rl.capacity * token) tokens
        ≤ available t rl.capacity rl.rate (lookup key rl.entries) + (now - t) * rl.rate
      → Within t now rl (write key tokens now rl, n)
  Within-written t now tokens n rl h =
      rw (lookup-write key tokens now rl, eq_refl key)
        (ground (arith, no_time now rl.rate), omega arith, refl, refl)

  Within-spend :
      (t now tokens : ℕ) (rl : RateLimiter)
      → tokens ≤ rl.capacity * token
      → tokens ≤ available t rl.capacity rl.rate (lookup key rl.entries) + (now - t) * rl.rate
      → let (rl', v) = spend now key tokens rl in Within t now rl (rl', tally (is_allowed v))
  Within-spend t now tokens rl h k = elim (Bool-cases (leb token tokens)) [
    | inl e ↦ rw e (Within-written t now (tokens - token) 1 rl (ground arith))
    | inr e ↦ rw e (Within-written t now tokens 0 rl (ground arith))
  ]

  pub Within-own :
      (t now : ℕ) (o : Option Entry) (rl : RateLimiter)
      → IsFair rl
      → t ≤ now
      → lookup key rl.entries ≡ o
      → IsPast t o
      → let (rl', v) = allow_found now key o rl in Within t now rl (rl', tally (is_allowed v))
  unfolding allow_found refilled
  Within-own t now none rl f h e p =
      let pos_token : token ≤ rl.capacity * token = grind (arith, f.some_capacity) in
      Within-written t now (rl.capacity * token - token) 1 rl (rw e (ground (arith, pos_token)))
  Within-own t now (some old) rl f h e p =
      Within-spend t now (refilled now rl old) rl (ground arith)
        (rw e (available_later t now rl.capacity rl.rate (some old) h p))

  Within-refl :
      (t : ℕ) (rl : RateLimiter) → IsPast t (lookup key rl.entries) → Within t t rl (rl, 0)
  Within-refl t rl p = (omega arith, p, refl, refl)

  pub Within-trans :
      (t u v m n : ℕ) (rl mid last : RateLimiter)
      → t ≤ u
      → u ≤ v
      → Within t u rl (mid, m)
      → Within u v mid (last, n)
      → Within t v rl (last, m + n)
  Within-trans t u v m n rl mid last h k a b =
      let split : (v - t) * rl.rate ≡ (u - t) * rl.rate + (v - u) * rl.rate =
        times_split t u v rl.rate h k in
      let sum : (m + n) * token ≡ m * token + n * token = omega arith in
      let second : n * token + available v last.capacity last.rate (lookup key last.entries)
          ≤ available u rl.capacity rl.rate (lookup key mid.entries) + (v - u) * rl.rate =
        subst
          (λ r.
            n * token + available v last.capacity last.rate (lookup key last.entries)
            ≤ available u rl.capacity r (lookup key mid.entries) + (v - u) * r)
          a.2
          (subst
            (λ c.
              n * token + available v last.capacity last.rate (lookup key last.entries)
              ≤ available u c mid.rate (lookup key mid.entries) + (v - u) * mid.rate)
            a.3 b.0) in
      let first : m * token + available u rl.capacity rl.rate (lookup key mid.entries)
          ≤ available t rl.capacity rl.rate (lookup key rl.entries) + (u - t) * rl.rate =
        subst
          (λ r.
            m * token + available u rl.capacity r (lookup key mid.entries)
            ≤ available t rl.capacity rl.rate (lookup key rl.entries) + (u - t) * rl.rate)
          a.2
          (subst
            (λ c.
              m * token + available u c mid.rate (lookup key mid.entries)
              ≤ available t rl.capacity rl.rate (lookup key rl.entries) + (u - t) * rl.rate)
            a.3 a.0) in
      (omega (arith, split, sum, first, second), b.1, b.2 ∙ a.2, b.3 ∙ a.3)

  pub Within-kept :
      (t now : ℕ) (rl : RateLimiter)
      → t ≤ now
      → IsPast t (lookup key rl.entries)
      → Within t now rl (rl, 0)
  Within-kept t now rl h p = (
    omega (arith, available_later t now rl.capacity rl.rate (lookup key rl.entries) h p),
    IsPast-later t now (lookup key rl.entries) h p,
    refl,
    refl,
  )
