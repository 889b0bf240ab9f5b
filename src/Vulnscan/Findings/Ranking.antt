-- ===== src/Vulnscan/Findings/Ranking.antt =====
-- The ranking and the selection of findings (repository.go).
use zero_agent_scan.Prelude.{
  ℕ, ◌≡◌, inl, inr, Bool, true, false, ◌&&◌, List, [], ◌∷◌, arith, eqb, ltb, if◌then◌else◌,
  Bool-cases, All, not,
}
use zero_agent_scan.Prelude.Int.{ℤ, ltb_ℤ}
use zero_agent_scan.Vulnscan.Findings.{Finding}
use zero_agent_scan.Vulnscan.Findings.Queries.{
  selected, comes_before, insert_ranked, ranked, same_flag,
}

-- The second may stand behind the first.
abbrev pub Ranked : Finding → Finding → Type 0
Ranked f g = comes_before g f ≡ false

abbrev pub Pairwise : List Finding → Type 0
Pairwise [] = Unit
Pairwise (f ∷ fs) = All (Ranked f) fs × Pairwise fs

abbrev flag_before : Bool → ℕ → ℤ → Bool → ℕ → ℤ → Bool
flag_before b m x c n y =
    if same_flag b c then (if eqb m n then ltb_ℤ y x else ltb n m) else b && not c

flag_before_trans :
    (b c d : Bool) (m n o : ℕ) (x y z : ℤ)
    → flag_before c n y b m x ≡ false
    → flag_before d o z c n y ≡ false
    → flag_before d o z b m x ≡ false
flag_before_trans true true true m n o x y z h k = ground arith
flag_before_trans true true false m n o x y z h k = ground arith
flag_before_trans true false true m n o x y z h k = ground arith
flag_before_trans true false false m n o x y z h k = ground arith
flag_before_trans false true true m n o x y z h k = ground arith
flag_before_trans false true false m n o x y z h k = ground arith
flag_before_trans false false true m n o x y z h k = ground arith
flag_before_trans false false false m n o x y z h k = ground arith

flag_before_asym :
    (b c : Bool) (m n : ℕ) (x y : ℤ)
    → flag_before c n y b m x ≡ true
    → flag_before b m x c n y ≡ false
flag_before_asym true true m n x y h = ground arith
flag_before_asym true false m n x y h = ground arith
flag_before_asym false true m n x y h = ground arith
flag_before_asym false false m n x y h = ground arith

Ranked-trans : (f g h : Finding) → Ranked f g → Ranked g h → Ranked f h
unfolding comes_before
Ranked-trans f g h a b =
    flag_before_trans f.is_kev g.is_kev h.is_kev f.cvss_score g.cvss_score h.cvss_score f.last_seen
      g.last_seen h.last_seen a b

Ranked-flip : (f g : Finding) → comes_before f g ≡ true → Ranked f g
unfolding comes_before
Ranked-flip f g e =
    flag_before_asym g.is_kev f.is_kev g.cvss_score f.cvss_score g.last_seen f.last_seen e

All-after : (f g : Finding) (gs : List Finding) → Ranked f g → All (Ranked g) gs → All (Ranked f) gs
All-after f g [] a h = tt
All-after f g (k ∷ gs) a h = (Ranked-trans f g k a h.0, All-after f g gs a h.1)

insert_ranked-All :
    (P : Finding → Type 0) (f : Finding) (fs : List Finding)
    → P f
    → All P fs
    → All P (insert_ranked f fs)
unfolding insert_ranked
insert_ranked-All P f [] p h = (p, tt)
insert_ranked-All P f (g ∷ gs) p h = elim (Bool-cases (comes_before g f)) [
  | inl e ↦ rw e (h.0, insert_ranked-All P f gs p h.1)
  | inr e ↦ rw e (p, h)
]

insert_ranked-Pairwise :
    (f : Finding) (fs : List Finding) → Pairwise fs → Pairwise (insert_ranked f fs)
unfolding insert_ranked
insert_ranked-Pairwise f [] h = (tt, tt)
insert_ranked-Pairwise f (g ∷ gs) h = elim (Bool-cases (comes_before g f)) [
  | inl e ↦
      rw e
        (insert_ranked-All (Ranked g) f gs (Ranked-flip g f e) h.0, insert_ranked-Pairwise f gs h.1)
  | inr e ↦ rw e ((e, All-after f g gs e h.0), h)
]

pub ranked-Pairwise : (fs : List Finding) → Pairwise (ranked fs)
unfolding ranked
ranked-Pairwise [] = tt
ranked-Pairwise (f ∷ fs) = insert_ranked-Pairwise f (ranked fs) (ranked-Pairwise fs)

pub ranked-All : (P : Finding → Type 0) (fs : List Finding) → All P fs → All P (ranked fs)
unfolding ranked
ranked-All P [] h = tt
ranked-All P (f ∷ fs) h = insert_ranked-All P f (ranked fs) h.0 (ranked-All P fs h.1)

pub selected-All :
    (test : Finding → Bool) (fs : List Finding) → All (λ f. test f ≡ true) (selected test fs)
unfolding selected
selected-All test [] = tt
selected-All test (f ∷ fs) = elim (Bool-cases (test f)) [
  | inl e ↦ rw e (e, selected-All test fs)
  | inr e ↦ rw e (selected-All test fs)
]

pub selected-kept :
    (P : Finding → Type 0) (test : Finding → Bool) (fs : List Finding)
    → All P fs
    → All P (selected test fs)
unfolding selected
selected-kept P test [] h = tt
selected-kept P test (f ∷ fs) h = elim (Bool-cases (test f)) [
  | inl e ↦ rw e (h.0, selected-kept P test fs h.1)
  | inr e ↦ rw e (selected-kept P test fs h.1)
]
