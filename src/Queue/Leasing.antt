-- ===== src/Queue/Leasing.antt =====
-- What `LeaseBatch` of job_queue.go hands out.
use mathlib.Core.Path.{subst}
use zero_agent_scan.Prelude.{
  ℕ, ◌+◌, ◌≤◌, ◌<◌, max, String, ◌≡◌, ◌≢◌, refl, sym, inl, inr, Bool, true, false, ◌==◌, eq_iff,
  Option, none, some, List, [], ◌∷◌, arith, All, All-map, lookup, lookup-insert, length,
  if◌then◌else◌, Option-cases, Bool-cases, if_both, if_cases, eq_refl,
}
use zero_agent_scan.Prelude.Int.{ℤ, pos, pos_part, leb_ℤ, ltb_ℤ, ◌+ℤ◌}
use zero_agent_scan.Queue.Entries.{HostTask, leased, is_pending}
use zero_agent_scan.Queue.{JobQueue, leased_task, lease_task, lease_loop, lease_batch}
use zero_agent_scan.Queue.Bounds.{lease_loop_keeps}

-- A test `len(leased) >= batchSize` that passes at a batch that is not full.
leb_false : (size : ℤ) (n : ℕ) → leb_ℤ size (pos (n + 1)) ≡ true → n + 1 < pos_part size → ⊥
leb_false size n h l = ground arith

-- A deadline, if there is one, that has passed.
abbrev pub has_passed : ℤ → Option ℤ → Bool
has_passed now none = true
has_passed now (some t) = ltb_ℤ t now

module _ {R : Type 0} where
  abbrev pub waits : Option (HostTask R) → Bool
  waits none = false
  waits (some task) = is_pending task.status

  -- A task that stands leased to a worker until an instant.
  abbrev pub Holds : String → ℤ → Option (HostTask R) → Type 0
  Holds worker expires none = ⊥
  Holds worker expires (some task) =
      (task.status ≡ leased)
      × (task.leased_by_worker ≡ worker)
      × (task.lease_expires_at ≡ some expires)

  module _ (now expires : ℤ) (worker : String) (size : ℤ) where
    -- A task that does not wait is left alone.
    lease_loop-others :
        (k : String) (o : Option (HostTask R)) (order : List String) (n : ℕ) (q : JobQueue R)
        → waits o ≡ false
        → lookup k q.tasks ≡ o
        → lookup k (lease_loop now expires worker size order n q).1.tasks ≡ o
    lease_loop-others k o order n q w h =
        lease_loop_keeps (λ q. lookup k q.tasks ≡ o) now expires worker size
          (λ i task q e z p.
            unfold lease_task in
            ground
              (arith, eq_iff i k, lookup-insert i k (leased_task now expires worker task) q.tasks))
          order n q h

    lease_loop-length :
        (order : List String) (n : ℕ) (q : JobQueue R)
        → n < max 1 (pos_part size)
        → n + length (lease_loop now expires worker size order n q).0 ≤ max 1 (pos_part size)
    unfolding lease_loop
    lease_loop-length [] n q h = omega arith
    lease_loop-length (k ∷ order) n q h = elim (Option-cases (lookup k q.tasks)) [
      | inl e ↦ rw (e, lease_loop) (lease_loop-length order n q h)
      | inr (task, e) ↦
          let q' = lease_task now expires worker k task q in
          elim (Bool-cases (is_pending task.status)) [
            | inl p ↦ rw (e, lease_loop, p) (ground (arith, lease_loop-length order (n + 1) q'))
            | inr p ↦ rw (e, lease_loop, p) (lease_loop-length order n q h)
          ]
    ]

    lookup-lease_task :
        (k i : String) (task : HostTask R) (q : JobQueue R)
        → lookup i (lease_task now expires worker k task q).tasks
          ≡ (if k == i then some (leased_task now expires worker task) else lookup i q.tasks)
    unfolding lease_task
    lookup-lease_task k i task q = lookup-insert k i (leased_task now expires worker task) q.tasks

    lease_loop-Holds :
        (order : List String) (n : ℕ) (q : JobQueue R)
        → let r = lease_loop now expires worker size order n q in
          All (λ k. Holds worker expires (lookup k r.1.tasks)) r.0
    unfolding lease_loop
    lease_loop-Holds [] n q = tt
    lease_loop-Holds (k ∷ order) n q = elim (Option-cases (lookup k q.tasks)) [
      | inl e ↦ rw (e, lease_loop) (lease_loop-Holds order n q)
      | inr (task, e) ↦
          let q' = lease_task now expires worker k task q in
          let t' = leased_task now expires worker task in
          let now_held : lookup k q'.tasks ≡ some t' = simp (lookup-lease_task, eq_refl) in
          let kept = lease_loop-others k (some t') order (n + 1) q' refl now_held in
          elim (Bool-cases (is_pending task.status)) [
            | inl p ↦
                rw (e, lease_loop, p)
                  (if_both
                    (λ (r : List String × JobQueue R).
                      All (λ i. Holds worker expires (lookup i r.1.tasks)) r.0)
                    (leb_ℤ size (pos (n + 1))) (rw now_held (refl, refl, refl), tt)
                    (rw kept (refl, refl, refl), lease_loop-Holds order (n + 1) q'))
            | inr p ↦ rw (e, lease_loop, p) (lease_loop-Holds order n q)
          ]
    ]

    lease_loop-waits :
        (order : List String) (n : ℕ) (q : JobQueue R)
        → All
            (λ k. waits (lookup k q.tasks) ≡ true)
            (lease_loop now expires worker size order n q).0
    unfolding lease_loop
    lease_loop-waits [] n q = tt
    lease_loop-waits (k ∷ order) n q = elim (Option-cases (lookup k q.tasks)) [
      | inl e ↦ rw (e, lease_loop) (lease_loop-waits order n q)
      | inr (task, e) ↦
          let q' = lease_task now expires worker k task q in
          elim (Bool-cases (is_pending task.status)) [
            | inl p ↦
                let here : waits (lookup k q.tasks) ≡ true = rw e p in
                rw (e, lease_loop, p)
                  (if_both
                    (λ (r : List String × JobQueue R).
                      All (λ i. waits (lookup i q.tasks) ≡ true) r.0)
                    (leb_ℤ size (pos (n + 1))) (here, tt)
                    (
                      here,
                      All-map _ _ _ (λ i w. ground (arith, lookup-lease_task k i task q))
                          (lease_loop-waits order (n + 1) q'),
                    ))
            | inr p ↦ rw (e, lease_loop, p) (lease_loop-waits order n q)
          ]
    ]

    lease_loop-absent :
        (k : String) (order : List String) (n : ℕ) (q : JobQueue R)
        → lookup k q.tasks ≡ none
        → lease_loop now expires worker size (k ∷ order) n q
          ≡ lease_loop now expires worker size order n q
    unfolding lease_loop
    lease_loop-absent k order n q e = rw (e, lease_loop)

    lease_loop-skip :
        (k : String) (order : List String) (n : ℕ) (q : JobQueue R) (task : HostTask R)
        → lookup k q.tasks ≡ some task
        → is_pending task.status ≡ false
        → lease_loop now expires worker size (k ∷ order) n q
          ≡ lease_loop now expires worker size order n q
    unfolding lease_loop
    lease_loop-skip k order n q task e p = rw (e, lease_loop, p)

    lease_loop-take :
        (k : String) (order : List String) (n : ℕ) (q : JobQueue R) (task : HostTask R)
        → lookup k q.tasks ≡ some task
        → is_pending task.status ≡ true
        → let q' = lease_task now expires worker k task q in
          let rest = lease_loop now expires worker size order (n + 1) q' in
          lease_loop now expires worker size (k ∷ order) n q
          ≡ (if leb_ℤ size (pos (n + 1)) then (k ∷ [], q') else (k ∷ rest.0, rest.1))
    unfolding lease_loop
    lease_loop-take k order n q task e p = rw (e, lease_loop, p)

    -- A batch that is not full leaves no waiting task among the keys that it was shown.
    abbrev Drains : List String → ℕ → List String × JobQueue R → Type 0
    Drains order n r =
        n + length r.0 < pos_part size → All (λ k. waits (lookup k r.1.tasks) ≡ false) order

    lease_loop-taken :
        (k : String) (order : List String) (n : ℕ) (q : JobQueue R) (task : HostTask R)
        → let q' = lease_task now expires worker k task q in
          let rest = lease_loop now expires worker size order (n + 1) q' in
          Drains order (n + 1) rest
          → Drains
              (k ∷ order)
              n
              (if leb_ℤ size (pos (n + 1)) then (k ∷ [], q') else (k ∷ rest.0, rest.1))
    lease_loop-taken k order n q task ih =
        let q' = lease_task now expires worker k task q in
        let t' = leased_task now expires worker task in
        let now_held : lookup k q'.tasks ≡ some t' = simp (lookup-lease_task, eq_refl) in
        if_cases (Drains (k ∷ order) n) (leb_ℤ size (pos (n + 1)))
          (λ full h. absurd (leb_false size n full (omega arith)))
          (λ more h. (
            rw (lease_loop-others k (some t') order (n + 1) q' refl now_held) refl,
            ih (omega arith),
          ))

    lease_loop-Drains :
        (order : List String) (n : ℕ) (q : JobQueue R)
        → Drains order n (lease_loop now expires worker size order n q)
    lease_loop-Drains [] n q = λ h. tt
    lease_loop-Drains (k ∷ order) n q = elim (Option-cases (lookup k q.tasks)) [
      | inl e ↦ subst (Drains (k ∷ order) n) (sym (lease_loop-absent k order n q e)) (λ h.
          (rw (lease_loop-others k none order n q refl e) refl, lease_loop-Drains order n q h))
      | inr (task, e) ↦ elim (Bool-cases (is_pending task.status)) [
        | inl p ↦ subst (Drains (k ∷ order) n) (sym (lease_loop-take k order n q task e p)) (
            lease_loop-taken k order n q task
              (lease_loop-Drains order (n + 1) (lease_task now expires worker k task q)))
        | inr p ↦ subst (Drains (k ∷ order) n) (sym (lease_loop-skip k order n q task e p)) (λ h.
            (rw (lease_loop-others k (some task) order n q p e) p, lease_loop-Drains order n q h))
      ]
    ]

  -- A batch takes at most `batch_size` tasks, but at least one where that is below one; each task
  -- that it returns was pending before, and stands leased to the worker until the deadline after.
  pub lease_batch_grants :
      (now : ℤ) (worker : String) (size duration : ℤ) (order : List String) (q : JobQueue R)
      → let r = lease_batch now worker size duration order q in
        (length r.0 ≤ max 1 (pos_part size))
        × All (λ k. waits (lookup k q.tasks) ≡ true) r.0
        × All (λ k. Holds worker (now +ℤ duration) (lookup k r.1.tasks)) r.0
  unfolding lease_batch
  lease_batch_grants now worker size duration order q =
      let expires = now +ℤ duration in
      (
        omega (arith, lease_loop-length now expires worker size order 0 q (omega arith)),
        lease_loop-waits now expires worker size order 0 q,
        lease_loop-Holds now expires worker size order 0 q,
      )

  -- A batch that comes back with fewer tasks than were asked for has left no pending task among the
  -- keys of the map's iteration.
  pub lease_batch_drains :
      (now : ℤ) (worker : String) (size duration : ℤ) (order : List String) (q : JobQueue R)
      → length (lease_batch now worker size duration order q).0 < pos_part size
      → All
          (λ k. waits (lookup k (lease_batch now worker size duration order q).1.tasks) ≡ false)
          order
  unfolding lease_batch
  lease_batch_drains now worker size duration order q h =
      lease_loop-Drains now (now +ℤ duration) worker size order 0 q (omega (arith, h))

  held_waits :
      (worker : String) (expires : ℤ) (o : Option (HostTask R))
      → Holds worker expires o
      → waits o ≡ true
      → ⊥
  held_waits worker expires none h w = h
  held_waits worker expires (some task) h w = ground arith

  -- Two batches taken one after the other have no task in common, whoever takes them.
  pub lease_batch_exclusive :
      (now now' : ℤ) (worker worker' : String) (size size' duration duration' : ℤ)
      (order order' : List String) (q : JobQueue R)
      → let r = lease_batch now worker size duration order q in
        All (λ k. All (λ j. k ≢ j) (lease_batch now' worker' size' duration' order' r.1).0) r.0
  lease_batch_exclusive now now' worker worker' size size' duration duration' order order' q =
      let r = lease_batch now worker size duration order q in
      let first = lease_batch_grants now worker size duration order q in
      let second = lease_batch_grants now' worker' size' duration' order' r.1 in
      All-map _ _ r.0
        (λ k held.
          All-map _ _ (lease_batch now' worker' size' duration' order' r.1).0
            (λ j w e.
              held_waits worker (now +ℤ duration) (lookup j r.1.tasks)
                (subst (λ i. Holds worker (now +ℤ duration) (lookup i r.1.tasks)) e held) w)
            second.1)
        first.2
