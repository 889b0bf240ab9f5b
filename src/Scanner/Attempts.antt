-- ===== src/Scanner/Attempts.antt =====
-- The attempts that `processTaskWithRetry` makes, and the waits between them (workerpool.go).
use mathlib.Core.Path.{subst}
use zero_agent_scan.Prelude.{
  ℕ, zero, suc, ◌+◌, ◌-◌, ◌*◌, ◌/◌, ◌^◌, ◌≤◌, ◌<◌, String, ◌≡◌, refl, sym, ◌∙◌, ap, inl, inr, Bool,
  true, false, ◌||◌, Option, none, some, arith, ltb, leb, if◌then◌else◌, Bool-cases, Option-cases,
  eqb,
}
use zero_agent_scan.Prelude.Int.{ℤ, pos, ltb_ℤ}
use zero_agent_scan.Scanner.Retries.{
  EndpointScanTarget, Reply, Verdict, is_authentication_failure, settle, attempts,
  process_task_with_retry, to_int64, with_jitter, calculate_backoff,
}

capped_wait :
    (rand : ℕ → ℕ) (attempt base limit capped : ℕ)
    → base * 2 ^ attempt < 2 ^ 63
    → capped ≡ (if ltb limit (base * 2 ^ attempt) then limit else base * 2 ^ attempt)
    → calculate_backoff rand attempt base (pos limit) ≡ with_jitter rand (pos capped)
unfolding calculate_backoff
capped_wait rand attempt base limit capped small e =
    let n = base * 2 ^ attempt in
    let wrapped : to_int64 n ≡ pos n = ground arith in
    let cut : (if ltb_ℤ (pos limit) (pos n) then pos limit else pos n) ≡ pos capped =
      ground arith in
    subst
      (λ z.
        with_jitter rand (if ltb_ℤ (pos limit) z then pos limit else z)
        ≡ with_jitter rand (pos capped))
      (sym wrapped) (ap (with_jitter rand) cut)

module _ (rand : ℕ → ℕ) (in_range : (n : ℕ) → 0 < n → rand n < n) where
  with_jitter-bounds :
      (c : ℕ) → (w : ℕ) × (with_jitter rand (pos c) ≡ pos w) × (c - c / 5 ≤ w) × (w ≤ c + c / 5)
  with_jitter-bounds c = elim (Bool-cases (ltb 0 (c / 5))) [
    | inl b ↦ (
      c + rand (c / 5 * 2) - c / 5,
      rw b refl,
      ground (arith, in_range (c / 5 * 2)),
      ground (arith, in_range (c / 5 * 2)),
    )
    | inr b ↦ (c, rw b refl, ground arith, ground arith)
  ]

  -- Where the doubled base stays below 2^63 and `rand.Int63n` keeps its range, a wait lies within
  -- a fifth of the capped backoff, so it can exceed the limit, by a fifth at most.
  pub calculate_backoff-bounds :
      (attempt base limit capped : ℕ)
      → base * 2 ^ attempt < 2 ^ 63
      → capped ≡ (if ltb limit (base * 2 ^ attempt) then limit else base * 2 ^ attempt)
      → (w : ℕ) × (calculate_backoff rand attempt base (pos limit) ≡ pos w)
        × (capped - capped / 5 ≤ w)
        × (w ≤ capped + capped / 5)
  calculate_backoff-bounds attempt base limit capped small e =
      let (w, same, low, high) = with_jitter-bounds capped in
      (w, capped_wait rand attempt base limit capped small e ∙ same, low, high)

abbrev pub is_some : Option String → Bool
is_some none = false
is_some (some s) = true

abbrev pub ends_with_error : (ℕ → Option String) → ℕ → ℕ → String → Bool
ends_with_error cancelled max_retries i e =
    is_authentication_failure e || leb max_retries i || is_some (cancelled i)

module _ {T : Type 0} (scan_fn : ℕ → Reply T) (cancelled : ℕ → Option String)
    (show_count : ℕ → String) (now : ℤ) (target : EndpointScanTarget) (max_retries : ℕ) where
  -- The attempt `i` ends the task: it succeeds, is refused for its credentials, is the last one, or
  -- the context ends in the wait behind it.
  abbrev pub stops_at : ℕ → Bool
  stops_at i = elim (scan_fn i).error [
    | none ↦ true
    | some e ↦ ends_with_error cancelled max_retries i e
  ]

  abbrev pub NoStopBefore : ℕ → Type 0
  NoStopBefore zero = Unit
  NoStopBefore (suc i) = NoStopBefore i × (stops_at i ≡ false)

  abbrev pub verdict_at : ℕ → Verdict T → Verdict T
  verdict_at i rest = settle scan_fn cancelled show_count now target max_retries i (scan_fn i) rest

  verdict_at-stop :
      (i : ℕ) (x y : Verdict T)
      → stops_at i ≡ true
      → (verdict_at i x ≡ verdict_at i y) × ((verdict_at i x).attempt_count ≡ suc i)
  verdict_at-stop i x y h = elim (Option-cases (scan_fn i).error) [
    | inl e ↦ ground arith
    | inr (m, e) ↦ elim (Option-cases (cancelled i)) [
      | inl c ↦ ground arith
      | inr (t, c) ↦ ground arith
    ]
  ]

  verdict_at-go : (i : ℕ) (x : Verdict T) → stops_at i ≡ false → verdict_at i x ≡ x
  verdict_at-go i x h = elim (Option-cases (scan_fn i).error) [
    | inl e ↦ absurd (ground arith)
    | inr (m, e) ↦ elim (Option-cases (cancelled i)) [
      | inl c ↦ ground arith
      | inr (t, c) ↦ absurd (ground arith)
    ]
  ]

  max_stops : stops_at max_retries ≡ true
  max_stops = elim (Option-cases (scan_fn max_retries).error) [
    | inl e ↦ ground arith
    | inr (m, e) ↦ ground arith
  ]

  first_stop :
      (fuel k : ℕ) (x : Verdict T)
      → fuel + k ≡ max_retries
      → NoStopBefore k
      → (i : ℕ) × (i ≤ max_retries)
        × (stops_at i ≡ true)
        × NoStopBefore i
        × (attempts scan_fn cancelled show_count now target max_retries (suc fuel) k
            ≡ verdict_at i x)
  unfolding attempts
  first_stop zero k x e none_yet =
      let stop : stops_at k ≡ true = subst (λ n. stops_at n ≡ true) (ground arith) max_stops in
      (k, ground arith, stop, none_yet, (verdict_at-stop k _ x stop).0)
  first_stop (suc fuel) k x e none_yet = elim (Bool-cases (stops_at k)) [
    | inl stop ↦ (k, ground arith, stop, none_yet, (verdict_at-stop k _ x stop).0)
    | inr go ↦
        let (i, at_most, stop, none_before, same) =
          first_stop fuel (suc k) x (ground arith) (none_yet, go) in
        (i, at_most, stop, none_before, verdict_at-go k _ go ∙ same)
  ]

  -- A task ends at its first attempt that ends it, one of the first `max_retries` + 1, with what
  -- that attempt returns (whatever `x` would follow), after as many calls of the probe.
  pub process_task_with_retry_lem :
      (x : Verdict T)
      → (i : ℕ) × (i ≤ max_retries)
        × (stops_at i ≡ true)
        × NoStopBefore i
        × (process_task_with_retry scan_fn cancelled show_count now target max_retries
            ≡ verdict_at i x)
        × ((process_task_with_retry scan_fn cancelled show_count now target
              max_retries).attempt_count
            ≡ suc i)
  unfolding process_task_with_retry
  process_task_with_retry_lem x =
      let (i, at_most, stop, none_before, same) = first_stop max_retries 0 x (ground arith) tt in
      (
        i,
        at_most,
        stop,
        none_before,
        same,
        ap (λ (v : Verdict T). v.attempt_count) same ∙ (verdict_at-stop i x x stop).1,
      )

  NoStopBefore-false : (i j : ℕ) → NoStopBefore i → j < i → stops_at j ≡ false
  NoStopBefore-false zero j n h = absurd (omega (arith, h))
  NoStopBefore-false (suc i) j n h = elim (Bool-cases (eqb j i)) [
    | inl e ↦ subst (λ k. stops_at k ≡ false) (ground arith) n.1
    | inr e ↦ NoStopBefore-false i j n.0 (ground arith)
  ]

  -- An attempt that the host refuses for its credentials is the last one: if the task comes to it,
  -- the error is returned after that many calls of the probe, and the account is not tried again.
  pub authentication_not_retried :
      (i : ℕ) (e : String)
      → i ≤ max_retries
      → NoStopBefore i
      → (scan_fn i).error ≡ some e
      → is_authentication_failure e ≡ true
      → ((process_task_with_retry scan_fn cancelled show_count now target max_retries).attempt_count
          ≡ suc i)
        × ((process_task_with_retry scan_fn cancelled show_count now target max_retries).error
            ≡ some e)
  authentication_not_retried i e at_most none_before err auth =
      let x : Verdict T = record { result = none; error = none; attempt_count = 0 } in
      let (j, below, stop, none_yet, same, counted) = process_task_with_retry_lem x in
      let stops : stops_at i ≡ true = ground arith in
      let first : j ≡ i =
        ground (arith, NoStopBefore-false i j none_before, NoStopBefore-false j i none_yet) in
      let ended : (verdict_at i x).error ≡ some e = ground arith in
      (
        counted ∙ ap suc first,
        ap (λ (v : Verdict T). v.error) (same ∙ ap (λ k. verdict_at k x) first) ∙ ended,
      )
