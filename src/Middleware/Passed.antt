-- ===== src/Middleware/Passed.antt =====
-- The cleanup, a request and a sequence of both, within a client's budget (ratelimit.go).
use mathlib.Core.Path.{subst}
use zero_agent_scan.Prelude.{
  ℕ, ◌+◌, ◌-◌, ◌*◌, ◌≤◌, ◌≡◌, String, true, false, Option, none, some, List, [], ◌∷◌, ltb, leb,
  lookup, remove, lookup-remove, ◌==◌, eq_iff, arith, refl, ap, sym, Bool-cases, inl, inr, tally,
}
use zero_agent_scan.Middleware.{
  Entry, RateLimiter, token, refilled, allow, allow_found, ten_minutes, expire, cleanup,
}
use zero_agent_scan.Middleware.Budget.{
  Event, request, tidy, time_of, is_allowed, event, passed, end_of, end_of_after, InOrder,
  available, IsPast, available_later, times_split, times_mono, IsFair, IsFair-kept, Within,
  Within-other, Within-own, Within-kept, Within-trans,
}

module _ (key : String) where
  -- Ten minutes fill a bucket.
  full_again :
      (now : ℕ) (e : Entry) (rl : RateLimiter)
      → IsFair rl
      → ltb ten_minutes (now - e.last_update) ≡ true
      → available now rl.capacity rl.rate (some e) ≡ rl.capacity * token
  full_again now e rl f h =
      let long : ten_minutes * rl.rate ≤ (now - e.last_update) * rl.rate =
        times_mono ten_minutes (now - e.last_update) rl.rate (ground arith) in
      let bound = f.refills in ground (arith, long, bound)

  Within-removed :
      (t now : ℕ) (other : String) (rl : RateLimiter)
      → t ≤ now
      → IsPast t (lookup key rl.entries)
      → ((other == key) ≡ true
          → rl.capacity * token ≤ available now rl.capacity rl.rate (lookup key rl.entries))
      → Within key t now rl (record rl { entries = remove other rl.entries }, 0)
  Within-removed t now other rl h p full = elim (Bool-cases (other == key)) [
    | inl same ↦
        rw (lookup-remove other key rl.entries, same)
          (
            omega (
              arith,
              full same,
              available_later t now rl.capacity rl.rate (lookup key rl.entries) h p,
            ),
            tt,
            refl,
            refl,
          )
    | inr different ↦
        rw (lookup-remove other key rl.entries, different) (Within-kept key t now rl h p)
  ]

  expire-Within :
      (t now : ℕ) (other : String) (o : Option Entry) (rl : RateLimiter)
      → IsFair rl
      → t ≤ now
      → lookup other rl.entries ≡ o
      → IsPast t (lookup key rl.entries)
      → Within key t now rl (expire now other o rl, 0)
  unfolding expire
  expire-Within t now other none rl f h e p = Within-kept key t now rl h p
  expire-Within t now other (some old) rl f h e p =
      elim (Bool-cases (ltb ten_minutes (now - old.last_update))) [
        | inr young ↦ rw young (Within-kept key t now rl h p)
        | inl past ↦ rw past (
            Within-removed t now other rl h p (λ same.
              let found : lookup key rl.entries ≡ some old =
                subst (λ k. lookup k rl.entries ≡ some old) ((eq_iff other key).0 same) e in
              rw found (omega (arith, full_again now old rl f past))))
      ]

  cleanup-Within :
      (t now : ℕ) (keys : List String) (rl : RateLimiter)
      → IsFair rl
      → t ≤ now
      → IsPast t (lookup key rl.entries)
      → Within key t now rl (cleanup now keys rl, 0)
  unfolding cleanup
  cleanup-Within t now [] rl f h p = Within-kept key t now rl h p
  cleanup-Within t now (other ∷ keys) rl f h p =
      let rl' = expire now other (lookup other rl.entries) rl in
      let head = expire-Within t now other (lookup other rl.entries) rl f h refl p in
      let tail =
        cleanup-Within now now keys rl' (IsFair-kept rl rl' f head.2 head.3) (omega arith) head.1 in
      Within-trans key t now now 0 0 rl rl' (cleanup now keys rl') h (omega arith) head tail

  Within-foreign :
      (t now : ℕ) (other : String) (o : Option Entry) (rl : RateLimiter)
      → t ≤ now
      → IsPast t (lookup key rl.entries)
      → (other == key) ≡ false
      → Within key t now rl ((allow_found now other o rl).0, 0)
  unfolding allow_found
  Within-foreign t now other none rl h p e =
      Within-other key t now (rl.capacity * token - token) other rl h p e
  Within-foreign t now other (some old) rl h p e =
      elim (Bool-cases (leb token (refilled now rl old))) [
        | inl enough ↦
            rw enough (Within-other key t now (refilled now rl old - token) other rl h p e)
        | inr few ↦ rw few (Within-other key t now (refilled now rl old) other rl h p e)
      ]

  event-Within :
      (t : ℕ) (e : Event) (rl : RateLimiter)
      → IsFair rl
      → t ≤ time_of e
      → IsPast t (lookup key rl.entries)
      → Within key t (time_of e) rl (event key e rl)
  unfolding event allow
  event-Within t (tidy now keys) rl f h p = cleanup-Within t now keys rl f h p
  event-Within t (request now other) rl f h p = elim (Bool-cases (other == key)) [
    | inl same ↦ rw same (
        subst
          (λ k.
            let (rl', v) = allow_found now k (lookup k rl.entries) rl in
            Within key t now rl (rl', tally (is_allowed v)))
          (sym ((eq_iff other key).0 same))
          (Within-own key t now (lookup key rl.entries) rl f h refl p))
    | inr different ↦
        rw different (Within-foreign t now other (lookup other rl.entries) rl h p different)
  ]

  -- What a client takes is in its bucket, or flows into it before the last event.
  passed_bound :
      (t : ℕ) (es : List Event) (rl : RateLimiter)
      → IsFair rl
      → InOrder t es
      → IsPast t (lookup key rl.entries)
      → passed key es rl * token
        ≤ available t rl.capacity rl.rate (lookup key rl.entries) + (end_of t es - t) * rl.rate
  unfolding passed
  passed_bound t [] rl f o p = omega arith
  passed_bound t (e ∷ es) rl f o p =
      let (rl', n) = event key e rl in
      let head = event-Within t e rl f o.0 p in
      let rest = passed_bound (time_of e) es rl' (IsFair-kept rl rl' f head.2 head.3) o.1 head.1 in
      let rates = ap (λ r. (end_of (time_of e) es - time_of e) * r) head.2 in
      let split =
        times_split t (time_of e) (end_of (time_of e) es) rl.rate o.0
          (end_of_after (time_of e) es o.1) in
      let sum : (n + passed key es rl') * token ≡ n * token + passed key es rl' * token =
        omega arith in
      omega (arith, head.0, rest, rates, split, sum)

  -- Where a client has no entry, a limiter that refills its bucket in ten minutes lets it pass at most
  -- `capacity` times, and `rate` times more in each minute until the last event. The requests of all
  -- clients and the rounds of the cleanup may come in any order, each at a time not before the last.
  pub passed_le_budget :
      (t : ℕ) (es : List Event) (rl : RateLimiter)
      → IsFair rl
      → InOrder t es
      → lookup key rl.entries ≡ none
      → passed key es rl * token ≤ rl.capacity * token + (end_of t es - t) * rl.rate
  passed_le_budget t es rl f o fresh =
      let past : IsPast t (lookup key rl.entries) = rw fresh tt in
      let bound = passed_bound t es rl f o past in
      subst
        (λ c.
          passed key es rl * token
          ≤ available t rl.capacity rl.rate c + (end_of t es - t) * rl.rate)
        fresh bound
