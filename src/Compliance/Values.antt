-- ===== src/Compliance/Values.antt =====
-- apps/api/internal/compliance/jsonlogic.go: JSON values, their comparison and their truth.
-- A number is a `float64`: its type and the operations on it are parameters. An object is the list
-- of its fields. `nil_list` is the slice that `evalNode` leaves nil, which `reflect.DeepEqual`
-- tells from an empty slice of the data.
use zero_agent_scan.Prelude.{
  ℕ, suc, zero, String, Bool, true, false, not, ◌&&◌, ◌||◌, eqb, Option, none, some, List, [], ◌∷◌,
  ◌==◌, if◌then◌else◌,
}
use zero_agent_scan.Prelude.Int.{pos, negsuc}
use zero_agent_scan.Prelude.Text.{codes, lower_codes, occurs, split, atoi}

mutual
  pub data Value (F : Type 0) : Type 0 where
    null : Value F
    bool : Bool → Value F
    number : F → Value F
    text : String → Value F
    nil_list : Value F
    list : Items F → Value F
    object : Fields F → Value F

  pub data Items (F : Type 0) : Type 0 where
    done : Items F
    item : Value F → Items F → Items F

  pub data Fields (F : Type 0) : Type 0 where
    end : Fields F
    field : String → Value F → Fields F → Fields F

-- Go's `float64`, `strconv.ParseFloat` and the `%v` of a value.
pub record Floats (F : Type 0) : Type 0 where
  pub zero_float : F
  pub eq_float : F → F → Bool
  pub lt_float : F → F → Bool
  pub le_float : F → F → Bool
  pub parse_float : String → Option F
  pub show_value : Value F → String

-- The index that a part of a path names: `Atoi`, if it is not negative.
abbrev pub index : String → Option ℕ
index part = elim (atoi (codes part)) [
  | none ↦ none
  | some (pos n) ↦ some n
  | some (negsuc n) ↦ none
]

module _ {F : Type 0} where
  abbrev pub find_field : String → Fields F → Option (Value F)
  find_field key end = none
  find_field key (field k v rest) = if k == key then some v else find_field key rest

  -- A missing key of a Go map reads as nil.
  abbrev pub field_at : String → Fields F → Value F
  field_at key fields = elim (find_field key fields) [ none ↦ null | some v ↦ v ]

  abbrev pub field_count : Fields F → ℕ
  field_count end = 0
  field_count (field k v rest) = suc (field_count rest)

  -- An index past the end reads as nil, as `resolveVar` has it.
  abbrev pub item_at : ℕ → Items F → Value F
  item_at n done = null
  item_at zero (item v rest) = v
  item_at (suc n) (item v rest) = item_at n rest

  abbrev pub step_into : Value F → String → Value F
  step_into (object fields) part = field_at part fields
  step_into (list items) part = elim (index part) [ none ↦ null | some n ↦ item_at n items ]
  step_into v part = null

  abbrev pub walk : List String → Value F → Value F
  walk [] v = v
  walk (part ∷ parts) v = walk parts (step_into v part)

  unfoldable pub resolve_var : Fields F → String → Value F
  unfolding split
  resolve_var fields path =
      if path == "" then object fields else walk (split b'.' path) (object fields)

module _ {F : Type 0} (ops : Floats F) where
  abbrev pub to_float : Value F → Option F
  to_float (number x) = some x
  to_float (text s) = ops.parse_float s
  to_float v = none

  abbrev pub is_truthy : Value F → Bool
  is_truthy null = false
  is_truthy (bool b) = b
  is_truthy (number x) = not (ops.eq_float x ops.zero_float)
  is_truthy (text s) = not (s == "") && not (s == "false") && not (s == "0")
  is_truthy nil_list = false
  is_truthy (list done) = false
  is_truthy (list (item v rest)) = true
  is_truthy (object end) = false
  is_truthy (object (field k v rest)) = true

  abbrev same_bool : Bool → Bool → Bool
  same_bool true b = b
  same_bool false b = not b

  -- `reflect.DeepEqual`. An object is looked up field by field.
  abbrev mutual
    pub deep_equal : Value F → Value F → Bool
    deep_equal null null = true
    deep_equal (bool b) (bool c) = same_bool b c
    deep_equal (number x) (number y) = ops.eq_float x y
    deep_equal (text s) (text t) = s == t
    deep_equal nil_list nil_list = true
    deep_equal (list xs) (list ys) = equal_items xs ys
    deep_equal (object m) (object n) = eqb (field_count m) (field_count n) && equal_fields m n
    deep_equal v w = false

    pub equal_items : Items F → Items F → Bool
    equal_items done done = true
    equal_items (item v xs) (item w ys) = deep_equal v w && equal_items xs ys
    equal_items xs ys = false

    pub equal_fields : Fields F → Fields F → Bool
    equal_fields end n = true
    equal_fields (field k v m) n =
        let rest = equal_fields m n in
        elim (find_field k n) [ none ↦ false | some w ↦ deep_equal v w && rest ]

  -- The comparison of two values of which neither is nil.
  abbrev equal_present : Option F → Option F → Value F → Value F → Bool
  equal_present (some x) (some y) v w = ops.eq_float x y
  equal_present o p nil_list nil_list = true
  equal_present o p nil_list (list done) = true
  equal_present o p (list done) nil_list = true
  equal_present o p (list done) (list done) = true
  equal_present o p v w = deep_equal v w

  unfoldable pub compare_equal : Value F → Value F → Bool
  compare_equal null null = true
  compare_equal null w = false
  compare_equal v null = false
  compare_equal v w = equal_present (to_float v) (to_float w) v w

  abbrev pub member : Value F → Items F → Bool
  unfolding compare_equal
  member v done = false
  member v (item w rest) = compare_equal v w || member v rest

  abbrev in_present : Value F → Value F → Bool
  unfolding lower_codes compare_equal
  in_present v (text s) = occurs (lower_codes (ops.show_value v)) (lower_codes s)
  in_present v (list items) = member v items
  in_present v w = false

  unfoldable pub check_in : Value F → Value F → Bool
  unfolding lower_codes compare_equal
  check_in null w = false
  check_in v w = in_present v w
