-- ===== src/Retention/Orders.antt =====
-- The numbers of a forecast (engine.go) do not depend on the order in which the snapshots come.
use zero_agent_scan.Prelude.{
  ℕ, suc, ◌+◌, ◌<◌, ◌≡◌, refl, sym, ap, ◌∙◌, inl, inr, String, Bool, true, false, not, ◌&&◌, ◌||◌,
  List, [], ◌∷◌, length, length-append, All, arith, eqb, tally, ◌==◌, eq_iff, Bool-cases,
}
use zero_agent_scan.Prelude.Reorderings.{Permᴰ, total}
use zero_agent_scan.Prelude.Int.{ℤ}
use zero_agent_scan.Fleet.Records.{HostSnapshotEntry}
use zero_agent_scan.Retention.Buckets.{Bucket, is_eligible, is_key, add_to_bucket, bucket_loop}

abbrev pub Key : Type 0
Key = String × (ℕ × ℕ)

abbrev same : Key → Key → Bool
same a b = a.0 == b.0 && (eqb a.1.0 b.1.0 && eqb a.1.1 b.1.1)

same-path : (a b : Key) → same a b ≡ true → a ≡ b
same-path (h, (y, w)) (h', (y', w')) e =
    let host : h ≡ h' = ground (arith, eq_iff h h') in
    let year : y ≡ y' = ground arith in let week : w ≡ w' = ground arith in cc

same_refl : (a : Key) → same a a ≡ true
same_refl (h, (y, w)) = ground (arith, eq_iff h h)

same_sym : (a b : Key) → same a b ≡ same b a
same_sym a b = elim (Bool-cases (same a b)) [
  | inl e ↦ ap (λ x. same x b) (same-path a b e) ∙ ap (same b) (sym (same-path a b e))
  | inr e ↦ elim (Bool-cases (same b a)) [
    | inl f ↦ ap (λ x. same x b) (sym (same-path b a f)) ∙ ap (same b) (same-path b a f)
    | inr f ↦ e ∙ sym f
  ]
]

abbrev with_key : Bool → Key → (Key → Bool) → Key → Bool
with_key e a known x = (e && same a x) || known x

swapped :
    (known : Key → Bool) (d e : Bool) (a b : Key)
    → tally (d && not (known a)) + tally (e && not (with_key d a known b))
      ≡ tally (e && not (known b)) + tally (d && not (with_key e b known a))
swapped known d e a b = elim (Bool-cases (same a b)) [
  | inl t ↦ ground (arith, same_sym a b, ap known (same-path a b t))
  | inr t ↦ ground (arith, same_sym a b)
]

module _ {P : Type 0} (iso_week : ℤ → ℕ × ℕ) (cutoff : ℤ) where
  abbrev key : HostSnapshotEntry P → Key
  key s = (s.host_id, iso_week s.created_at)

  -- How many keys of eligible snapshots are not known yet.
  abbrev pub news : (Key → Bool) → List (HostSnapshotEntry P) → ℕ
  news known [] = 0
  news known (s ∷ ss) =
      tally (is_eligible cutoff s && not (known (key s)))
      + news (with_key (is_eligible cutoff s) (key s) known) ss

  news-eq :
      (known known' : Key → Bool) (ss : List (HostSnapshotEntry P))
      → ((x : Key) → known x ≡ known' x)
      → news known ss ≡ news known' ss
  news-eq known known' [] h = refl
  news-eq known known' (s ∷ ss) h =
      let e = is_eligible cutoff s in
      let first = ap (λ b. tally (e && not b)) (h (key s)) in
      let rest =
        news-eq (with_key e (key s) known) (with_key e (key s) known') ss
          (λ x. ap (λ b. (e && same (key s) x) || b) (h x)) in
      omega (arith, first, rest)

  pub news-Permᴰ :
      {ss ts : List (HostSnapshotEntry P)} (known : Key → Bool)
      → Permᴰ ss ts
      → news known ss ≡ news known ts
  news-Permᴰ known Permᴰ.nil = refl
  news-Permᴰ known (Permᴰ.cons {a = a} {b = b} {l₁ = ss} {l₂ = ts} e p) =
      ap (λ s. news known (s ∷ ss)) e
      ∙ ap (λ n. tally (is_eligible cutoff b && not (known (key b))) + n)
          (news-Permᴰ (with_key (is_eligible cutoff b) (key b) known) p)
  news-Permᴰ known (Permᴰ.swap {a = a} {b = b} {a' = a'} {b' = b'} {l = l} e f) =
      let d = is_eligible cutoff a in
      let c = is_eligible cutoff b in
      let heads = swapped known d c (key a) (key b) in
      let tails =
        news-eq (with_key c (key b) (with_key d (key a) known))
          (with_key d (key a) (with_key c (key b) known)) l (λ x. ground arith) in
      let straight : news known (a ∷ b ∷ l) ≡ news known (b ∷ a ∷ l) =
        omega (arith, heads, tails) in
      straight ∙ ap (λ s. news known (s ∷ a ∷ l)) f ∙ ap (λ s. news known (a' ∷ s ∷ l)) e
  news-Permᴰ known (Permᴰ.trans p q) = news-Permᴰ known p ∙ news-Permᴰ known q

  abbrev bucket_key : Bucket P → Key
  bucket_key b = (b.host, b.week)

  abbrev pub known_of : List (Bucket P) → Key → Bool
  known_of [] x = false
  known_of (b ∷ bs) x = same (bucket_key b) x || known_of bs x

  abbrev pub size : Bucket P → ℕ
  size b = length b.snaps

  abbrev pub Filled : List (Bucket P) → Type 0
  Filled bs = All (λ b. 0 < size b) bs

  -- A snapshot more: one bucket more if its key is new, and one snapshot more in all.
  add_to_bucket-known :
      (s : HostSnapshotEntry P) (bs : List (Bucket P)) (x : Key)
      → known_of (add_to_bucket iso_week s bs) x ≡ with_key true (key s) (known_of bs) x
  unfolding add_to_bucket
  add_to_bucket-known s [] x = refl
  add_to_bucket-known s (b ∷ bs) x = elim (Bool-cases (is_key iso_week b s)) [
    | inl e ↦
        let one : same (bucket_key b) x ≡ same (key s) x =
          ap (λ k. same k x) (same-path (bucket_key b) (key s) e) in
        rw e (ground arith)
    | inr e ↦ rw e (ground (arith, add_to_bucket-known s bs x))
  ]

  add_to_bucket-length :
      (s : HostSnapshotEntry P) (bs : List (Bucket P))
      → length (add_to_bucket iso_week s bs) ≡ length bs + tally (not (known_of bs (key s)))
  unfolding add_to_bucket
  add_to_bucket-length s [] = refl
  add_to_bucket-length s (b ∷ bs) = elim (Bool-cases (is_key iso_week b s)) [
    | inl e ↦ rw e (ground arith)
    | inr e ↦ rw e (ground (arith, add_to_bucket-length s bs))
  ]

  add_to_bucket-total :
      (s : HostSnapshotEntry P) (bs : List (Bucket P))
      → total size (add_to_bucket iso_week s bs) ≡ suc (total size bs)
  unfolding add_to_bucket
  add_to_bucket-total s [] = refl
  add_to_bucket-total s (b ∷ bs) = elim (Bool-cases (is_key iso_week b s)) [
    | inl e ↦ rw e (omega (arith, length-append b.snaps (s ∷ [])))
    | inr e ↦ rw e (omega (arith, add_to_bucket-total s bs))
  ]

  add_to_bucket-Filled :
      (s : HostSnapshotEntry P) (bs : List (Bucket P))
      → Filled bs
      → Filled (add_to_bucket iso_week s bs)
  unfolding add_to_bucket
  add_to_bucket-Filled s [] h = (omega arith, tt)
  add_to_bucket-Filled s (b ∷ bs) h = elim (Bool-cases (is_key iso_week b s)) [
    | inl e ↦ rw e (omega (arith, length-append b.snaps (s ∷ [])), h.1)
    | inr e ↦ rw e (h.0, add_to_bucket-Filled s bs h.1)
  ]

  abbrev pub eligible : HostSnapshotEntry P → ℕ
  eligible s = tally (is_eligible cutoff s)

  pub bucket_loop-counts :
      (ss : List (HostSnapshotEntry P)) (bs : List (Bucket P))
      → Filled bs
      → let bs' = bucket_loop iso_week cutoff ss bs in
        (length bs' ≡ length bs + news (known_of bs) ss)
        × (total size bs' ≡ total size bs + total eligible ss)
        × Filled bs'
  unfolding bucket_loop
  bucket_loop-counts [] bs h = (omega arith, omega arith, h)
  bucket_loop-counts (s ∷ ss) bs h = elim (Bool-cases (is_eligible cutoff s)) [
    | inl e ↦
        let bs' = add_to_bucket iso_week s bs in
        let (number, sum, filled) = bucket_loop-counts ss bs' (add_to_bucket-Filled s bs h) in
        let same_news =
          news-eq (known_of bs') (with_key true (key s) (known_of bs)) ss
            (add_to_bucket-known s bs) in
        rw e (
          omega (arith, number, same_news, add_to_bucket-length s bs),
          omega (arith, sum, add_to_bucket-total s bs),
          filled,
        )
    | inr e ↦
        let (number, sum, filled) = bucket_loop-counts ss bs h in
        rw e (omega (arith, number), omega (arith, sum), filled)
  ]
