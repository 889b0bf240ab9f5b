-- ===== src/Prelude/Maps.antt =====
-- Go's `map[string]V` as an association list. A key that is written again keeps its place; the
-- program's loops over a map take the order of the keys from outside, as Go leaves it open.
use Prim.Native.Nat.{ℕ, ◌+◌, ◌≤◌}
use Prim.Native.String.{String}
use mathlib.Core.Path.{◌≡◌, refl, subst}
use mathlib.Core.Logic.{inl, inr}
use mathlib.Core.Bool.{Bool, true}
use mathlib.Core.List.{List, [], ◌∷◌}
use mathlib.Core.Option.{Option, none, some}
use native.Mathlib.Omega.{arith}
use text.Mathlib.Text.{◌==◌}
use text.Mathlib.TextEquality.{eq_iff}
use text.Mathlib.TextPositions.{eq_refl}
use zero_agent_scan.Prelude.Tests.{if◌then◌else◌, tally, Bool-cases}

abbrev pub Map {ℓ} : Type ℓ → Type ℓ
Map V = List (String × V)

module _ {ℓ} {V : Type ℓ} where
  -- m[key]
  unfoldable pub lookup : String → Map V → Option V
  lookup key [] = none
  lookup key ((name, held) ∷ rest) = if name == key then some held else lookup key rest

  -- m[key] = new
  unfoldable pub insert : String → V → Map V → Map V
  insert key new [] = (key, new) ∷ []
  insert key new ((name, held) ∷ rest) =
      if name == key then (name, new) ∷ rest else (name, held) ∷ insert key new rest

  -- How many entries pass a test.
  unfoldable pub count : (V → Bool) → Map V → ℕ
  count p [] = 0
  count p ((j, v) ∷ m) = tally (p v) + count p m

  -- Every entry, by recursion.
  abbrev pub Each {κ} : (V → Type κ) → Map V → Type κ
  Each P [] = Unit
  Each P ((j, v) ∷ m) = P v × Each P m

module _ {ℓ} {V : Type ℓ} where
  pub lookup-insert :
      (key other : String) (new : V) (entries : Map V)
      → lookup other (insert key new entries)
        ≡ (if key == other then some new else lookup other entries)
  unfolding lookup insert
  lookup-insert key other new [] = refl
  lookup-insert key other new ((name, held) ∷ rest) = ground (
    arith,
    lookup-insert key other new rest,
    eq_iff name key,
    eq_iff name other,
    eq_iff key other,
  )

  pub lookup-insert_self :
      (key : String) (new : V) (entries : Map V) → lookup key (insert key new entries) ≡ some new
  lookup-insert_self key new entries = simp (lookup-insert, eq_refl)

  -- Writing over an entry exchanges the old value for the new one in every count.
  pub count-insert_old :
      (p : V → Bool) (k : String) (v w : V) (m : Map V)
      → lookup k m ≡ some w
      → count p (insert k v m) + tally (p w) ≡ count p m + tally (p v)
  unfolding lookup insert count
  count-insert_old p k v w [] h = absurd (ground arith)
  count-insert_old p k v w ((i, u) ∷ m) h = elim (Bool-cases (i == k)) [
    | inl e ↦ rw e (ground arith)
    | inr e ↦ rw e (ground (arith, count-insert_old p k v w m))
  ]

  -- Writing a new key adds its value.
  pub count-insert_new :
      (p : V → Bool) (k : String) (v : V) (m : Map V)
      → lookup k m ≡ none
      → count p (insert k v m) ≡ count p m + tally (p v)
  unfolding lookup insert count
  count-insert_new p k v [] h = omega arith
  count-insert_new p k v ((i, w) ∷ m) h = elim (Bool-cases (i == k)) [
    | inl e ↦ absurd (ground arith)
    | inr e ↦ rw e (ground (arith, count-insert_new p k v m))
  ]

  -- An entry that passes the test is counted.
  pub count-pos_of_lookup :
      (p : V → Bool) (k : String) (w : V) (m : Map V)
      → lookup k m ≡ some w
      → p w ≡ true
      → 1 ≤ count p m
  unfolding lookup count
  count-pos_of_lookup p k w [] h t = absurd (ground arith)
  count-pos_of_lookup p k w ((i, u) ∷ m) h t = ground (arith, count-pos_of_lookup p k w m)

  pub Each-lookup {κ} :
      (P : V → Type κ) (k : String) (w : V) (m : Map V) → Each P m → lookup k m ≡ some w → P w
  unfolding lookup
  Each-lookup P k w [] e h = absurd (cc)
  Each-lookup P k w ((i, u) ∷ m) e h = elim (Bool-cases (i == k)) [
    | inl t ↦ let same : u ≡ w = ground arith in subst P same e.0
    | inr t ↦ Each-lookup P k w m e.1 (rw t at h)
  ]

  pub Each-insert {κ} :
      (P : V → Type κ) (k : String) (v : V) (m : Map V) → Each P m → P v → Each P (insert k v m)
  unfolding insert
  Each-insert P k v [] e h = (h, tt)
  Each-insert P k v ((i, w) ∷ m) e h = elim (Bool-cases (i == k)) [
    | inl t ↦ rw t (h, e.1)
    | inr t ↦ rw t (e.0, Each-insert P k v m e.1 h)
  ]

module _ {ℓ} {V : Type ℓ} where
  -- delete(m, key)
  unfoldable pub remove : String → Map V → Map V
  remove key [] = []
  remove key ((name, held) ∷ rest) =
      let others = remove key rest in if name == key then others else (name, held) ∷ others

  pub lookup-remove :
      (key other : String) (entries : Map V)
      → lookup other (remove key entries) ≡ (if key == other then none else lookup other entries)
  unfolding lookup remove
  lookup-remove key other [] = ground arith
  lookup-remove key other ((name, held) ∷ rest) =
      ground
        (arith, lookup-remove key other rest, eq_iff name key, eq_iff name other, eq_iff key other)

  -- The values in the order of the keys: what `range` reads.
  abbrev pub values : Map V → List V
  values [] = []
  values ((name, held) ∷ rest) = held ∷ values rest
