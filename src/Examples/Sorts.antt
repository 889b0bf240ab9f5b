-- ===== src/Examples/Sorts.antt =====
-- A sort of snapshots by their time, by insertion, which stands for `sort.Slice` in the examples, and
-- an order that runs through a list from its end.
use mathlib.Core.Path.{refl}
use mathlib.Core.List.Permᴰ
use zero_agent_scan.Prelude.{List, [], ◌∷◌, ◌++◌, if◌then◌else◌, Bool-cases, inl, inr}
use zero_agent_scan.Prelude.Reorderings.{Permᴰ, Reorders}
use zero_agent_scan.Prelude.Int.{ltb_ℤ}
use zero_agent_scan.Fleet.Records.{HostSnapshotEntry}

module _ {A : Type 0} where
  abbrev pub backwards : List A → List A
  backwards [] = []
  backwards (x ∷ xs) = backwards xs ++ x ∷ []

  last_first : (x : A) (xs : List A) → Permᴰ (x ∷ xs) (xs ++ x ∷ [])
  last_first x [] = Permᴰ.refl (x ∷ [])
  last_first x (y ∷ xs) = Permᴰ.trans (Permᴰ.swap refl refl) (Permᴰ.cons refl (last_first x xs))

  pub backwards-Reorders : Reorders (backwards)
  backwards-Reorders [] = Permᴰ.nil
  backwards-Reorders (x ∷ xs) =
      Permᴰ.trans (Permᴰ.cons refl (backwards-Reorders xs)) (last_first x (backwards xs))

module _ {P : Type 0} where
  abbrev pub insert_by_time :
      HostSnapshotEntry P → List (HostSnapshotEntry P) → List (HostSnapshotEntry P)
  insert_by_time snap [] = snap ∷ []
  insert_by_time snap (other ∷ others) =
      if ltb_ℤ other.created_at snap.created_at
      then other ∷ insert_by_time snap others
      else snap ∷ other ∷ others

  abbrev pub sort_by_time : List (HostSnapshotEntry P) → List (HostSnapshotEntry P)
  sort_by_time [] = []
  sort_by_time (snap ∷ snaps) = insert_by_time snap (sort_by_time snaps)

  insert_by_time-Permᴰ :
      (s : HostSnapshotEntry P) (ss : List (HostSnapshotEntry P))
      → Permᴰ (s ∷ ss) (insert_by_time s ss)
  insert_by_time-Permᴰ s [] = Permᴰ.refl (s ∷ [])
  insert_by_time-Permᴰ s (t ∷ ts) = elim (Bool-cases (ltb_ℤ t.created_at s.created_at)) [
    | inl e ↦
        rw e (Permᴰ.trans (Permᴰ.swap refl refl) (Permᴰ.cons refl (insert_by_time-Permᴰ s ts)))
    | inr e ↦ rw e (Permᴰ.refl (s ∷ t ∷ ts))
  ]

  pub sort_by_time-Permᴰ : (ss : List (HostSnapshotEntry P)) → Permᴰ ss (sort_by_time ss)
  sort_by_time-Permᴰ [] = Permᴰ.nil
  sort_by_time-Permᴰ (s ∷ ss) =
      Permᴰ.trans (Permᴰ.cons refl (sort_by_time-Permᴰ ss))
        (insert_by_time-Permᴰ s (sort_by_time ss))
