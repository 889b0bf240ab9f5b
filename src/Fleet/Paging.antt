-- ===== src/Fleet/Paging.antt =====
-- apps/api/internal/repository/repository.go: the pages of `ListSnapshotsKeyset` and
-- `ListAuditLogsKeyset`, which share one algorithm: sort by exchanges, latest first; find the first
-- item behind the cursor; cut a page of at most `limit` items. The items, their times and their IDs
-- are parameters.
pub mod Order
pub mod Walk
use zero_agent_scan.Prelude.{
  ℕ, zero, suc, ◌+◌, ◌-◌, String, Bool, false, true, ◌&&◌, ◌||◌, Option, none, some, List, [], ◌∷◌,
  ltb, leb, eqb, if◌then◌else◌, length, take, drop, get_elem?,
}
use zero_agent_scan.Prelude.Int.{ℤ, pos, negsuc, ltb_ℤ, eqb_ℤ}
use zero_agent_scan.Fleet.Cursors.{
  Base64, KeysetCursor, Decoded, absent, cursor, failed, encode_cursor, decode_cursor,
}

-- Go's order of texts, by their bytes.
unfoldable pub lex_lt : List ℕ → List ℕ → Bool
lex_lt s [] = false
lex_lt [] (b ∷ t) = true
lex_lt (a ∷ s) (b ∷ t) = ltb a b || eqb a b && lex_lt s t

-- The place of an item in the order of a listing: its time and its ID.
pub record Place : Type 0 where
  pub time : ℤ
  pub id : List ℕ

-- Does `q` come after `p` in a listing, which goes from the latest to the earliest?
unfoldable pub behind : Place → Place → Bool
unfolding lex_lt
behind p q = ltb_ℤ q.time p.time || eqb_ℤ q.time p.time && lex_lt q.id p.id

pub record PageRequest : Type 0 where
  pub cursor : List ℕ
  pub limit : ℤ

pub record Page (A : Type 0) : Type 0 where
  pub items : List A
  pub next_cursor : List ℕ
  pub has_more : Bool
  pub limit : ℕ

-- The bounds of a page's length: what a request gets that names none, and the most it can get.
unfoldable pub page_limit : ℕ → ℕ → ℤ → ℕ
page_limit default most (pos zero) = default
page_limit default most (pos (suc n)) = if ltb most (suc n) then most else suc n
page_limit default most (negsuc n) = default

module _ {A : Type 0} (place : A → Place) where
  -- One pass of the inner loop: what ends up in front, and the items behind it.
  unfoldable pub sweep : A → List A → A × List A
  sweep x [] = (x, [])
  sweep x (y ∷ ys) =
      let kept = sweep x ys in
      let swapped = sweep y ys in
      if behind (place y) (place x) then (swapped.0, x ∷ swapped.1) else (kept.0, y ∷ kept.1)

  -- The outer loop, once for each item.
  unfoldable pub exchange_rounds : ℕ → List A → List A
  unfolding sweep
  exchange_rounds zero xs = xs
  exchange_rounds (suc n) [] = []
  exchange_rounds (suc n) (x ∷ xs) =
      let (first, rest) = sweep x xs in first ∷ exchange_rounds n rest

  unfoldable pub exchange_sort : List A → List A
  unfolding exchange_rounds
  exchange_sort xs = exchange_rounds (length xs) xs

  abbrev pub shifted : Option ℕ → Option ℕ
  shifted none = none
  shifted (some i) = some (suc i)

  -- The index of the first item behind a cursor.
  unfoldable pub first_behind : Place → List A → Option ℕ
  first_behind c [] = none
  first_behind c (x ∷ xs) = if behind c (place x) then some 0 else shifted (first_behind c xs)

  -- `startIndex`: it stays 0 where the cursor cannot be read, and where no item is behind it.
  unfoldable pub start_index : Decoded → List A → ℕ
  unfolding first_behind
  start_index absent all = 0
  start_index (failed e) all = 0
  start_index (cursor c) all = elim (first_behind (record { time = c.created_at; id = c.id }) all) [
    | none ↦ 0
    | some i ↦ i
  ]

  module _ (b64 : Base64) where
    -- `items[len(items)-1]`, encoded.
    abbrev cursor_of : Option A → List ℕ
    cursor_of none = []
    cursor_of (some x) = encode_cursor b64 (place x).time (place x).id

    unfoldable pub page_at : ℕ → ℕ → List A → Page A
    page_at limit start all =
        let items = take limit (drop start all) in
        if ltb (start + limit) (length all)
        then record {
          items = items;
          next_cursor = cursor_of (get_elem? items (length items - 1));
          has_more = true;
          limit = limit;
        }
        else record { items = drop start all; next_cursor = []; has_more = false; limit = limit }

    unfoldable pub list_keyset : ℕ → ℕ → PageRequest → List A → Page A
    unfolding exchange_sort page_limit start_index page_at
    list_keyset default most req found =
        let all = exchange_sort found in
        page_at (page_limit default most req.limit) (start_index (decode_cursor b64 req.cursor) all)
          all
