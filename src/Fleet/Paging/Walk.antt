-- ===== src/Fleet/Paging/Walk.antt =====
-- A client that follows `next_cursor` from page to page while `has_more` is set.
use mathlib.Core.List.{append-nil}
use zero_agent_scan.Prelude.{
  ℕ, zero, suc, ◌+◌, ◌-◌, ◌^◌, ◌<◌, ◌≡◌, inl, inr, true, false, none, some, List, [], ◌∷◌, ◌++◌,
  ltb, if◌then◌else◌, arith, length, take, drop, get_elem?, All, All-get_elem?, Bool-cases, refl,
  ap, ◌∙◌, sym, length-take, length-drop, get_elem?-take, get_elem?-drop, get_elem?-some,
  take-append-drop, drop-drop, drop_all,
}
use zero_agent_scan.Prelude.Int.{ℤ, pos, negsuc, pos_part, neg_part}
use zero_agent_scan.Fleet.Cursors.{Base64, KeysetCursor, cursor, encode_cursor, decode_cursor}
use zero_agent_scan.Fleet.Cursors.RoundTrip.{decode_cursor-encode_cursor}
use zero_agent_scan.Fleet.Paging.{
  Place, behind, page_limit, first_behind, start_index, page_at, exchange_sort, list_keyset,
}
use zero_agent_scan.Fleet.Paging.Order.{
  IsSorted, Distinct, behind_irrefl, behind_asymm, exchange_sort_lem, exchange_sort-All,
  length-exchange_sort,
}

-- The time is within 64 bits of nanoseconds, the ID a list of bytes.
abbrev pub IsEncodable : Place → Type 0
IsEncodable p = (pos_part p.time < 2 ^ 63) × (neg_part p.time < 2 ^ 63) × All (λ b. b < 256) p.id

pub page_limit_pos :
    (default most : ℕ) (limit : ℤ) → 0 < default → 0 < most → 0 < page_limit default most limit
unfolding page_limit
page_limit_pos default most (pos zero) h k = h
page_limit_pos default most (pos (suc n)) h k = ground arith
page_limit_pos default most (negsuc n) h k = h

module _ {A : Type 0} (place : A → Place) where
  -- Behind an item of a sorted listing, the next index is the first.
  first_behind-sorted :
      (xs : List A) (i : ℕ) (x : A)
      → IsSorted place xs
      → get_elem? xs i ≡ some x
      → suc i < length xs
      → first_behind place (place x) xs ≡ some (suc i)
  unfolding first_behind
  first_behind-sorted [] i x s e h = absurd (ground arith)
  first_behind-sorted (y ∷ []) i x s e h = absurd (omega arith)
  first_behind-sorted (y ∷ z ∷ xs) zero x s e h =
      let same : y ≡ x = ground arith in
      rw (← same) (ground (arith, behind_irrefl (place y), s.0.0))
  first_behind-sorted (y ∷ z ∷ xs) (suc i) x s e h =
      let front = All-get_elem? _ (z ∷ xs) i x s.0 e in
      rw (
        behind_asymm (place y) (place x) front,
        first_behind-sorted (z ∷ xs) i x s.1 e (omega arith),
      )

  module _ (b64 : Base64) where
    -- The cursor of a page leads to the item after the page.
    page_at-next :
        (n start : ℕ) (all : List A)
        → IsSorted place all
        → All (λ x. IsEncodable (place x)) all
        → 0 < n
        → start + n < length all
        → start_index place (decode_cursor b64 (page_at place b64 n start all).next_cursor) all
          ≡ start + n
    unfolding page_at start_index
    page_at-next n start all s enc pos_n more =
        let (x, e) = get_elem?-some all (start + n - 1) (omega arith) in
        let full = length-take n (drop start all) (omega (arith, length-drop start all)) in
        let place_in : start + (length (take n (drop start all)) - 1) ≡ start + n - 1 =
          omega (arith, full) in
        let last : get_elem? (take n (drop start all)) (length (take n (drop start all)) - 1)
            ≡ some x =
          get_elem?-take n (drop start all) _ (omega (arith, full))
          ∙ get_elem?-drop start all _
          ∙ ap (get_elem? all) place_in
          ∙ e in
        let ok = All-get_elem? _ all (start + n - 1) x enc e in
        let back = decode_cursor-encode_cursor b64 (place x).time (place x).id ok.0 ok.1 ok.2 in
        let found = first_behind-sorted all (start + n - 1) x s e (omega arith) in
        let tested : ltb (start + n) (length all) ≡ true = ground arith in
        let next : (page_at place b64 n start all).next_cursor
            ≡ encode_cursor b64 (place x).time (place x).id =
          rw (tested, last) in
        let settled : start_index place
              (cursor (record { created_at = (place x).time; id = (place x).id })) all
            ≡ start + n =
          rw (found, start_index) (omega arith) in
        ap (λ c. start_index place (decode_cursor b64 c) all) next
        ∙ ap (λ d. start_index place d all) back
        ∙ settled

  module _ (b64 : Base64) (default most : ℕ) (limit : ℤ) where
    unfoldable pub walk : ℕ → List ℕ → List A → List A
    unfolding list_keyset
    walk zero at found = []
    walk (suc f) at found =
        let page =
          list_keyset place b64 default most (record { cursor = at; limit = limit }) found in
        page.items ++ (if page.has_more then walk f page.next_cursor found else [])

    module _ (default_pos : 0 < default) (most_pos : 0 < most) (found : List A)
        (sorted : IsSorted place (exchange_sort place found))
        (encodable : All (λ x. IsEncodable (place x)) (exchange_sort place found)) where
      walk_from :
          (f start : ℕ) (at : List ℕ)
          → start_index place (decode_cursor b64 at) (exchange_sort place found) ≡ start
          → length (exchange_sort place found) < f + start
          → walk f at found ≡ drop start (exchange_sort place found)
      unfolding walk page_at
      walk_from zero start at e h = sym (drop_all start _ (omega arith))
      walk_from (suc f) start at e h =
          let n = page_limit default most limit in
          let all = exchange_sort place found in
          elim (Bool-cases (ltb (start + n) (length all))) [
            | inl more ↦
                let next =
                  page_at-next b64 n start all sorted encodable
                    (page_limit_pos default most limit default_pos most_pos) (ground arith) in
                let tail =
                  walk_from f (start + n) (page_at place b64 n start all).next_cursor next
                    (omega (arith, page_limit_pos default most limit default_pos most_pos)) in
                rw (e, more, rw more at tail)
                  (ap (λ l. take n (drop start all) ++ l) (sym (drop-drop n start all))
                    ∙ take-append-drop n (drop start all))
            | inr none_left ↦ rw (e, none_left) (append-nil _)
          ]

  -- Following `next_cursor` from the first page on, for at most one page more than there are items,
  -- gives each item once and in the order of the sort, whatever limit is asked for. No two items
  -- share both time and ID, the times fit 64 bits of nanoseconds and the IDs are bytes.
  pub walk_complete :
      (b64 : Base64) (default most : ℕ) (limit : ℤ) (found : List A)
      → 0 < default
      → 0 < most
      → Distinct place found
      → All (λ x. IsEncodable (place x)) found
      → walk b64 default most limit (suc (length found)) [] found ≡ exchange_sort place found
  unfolding start_index decode_cursor
  walk_complete b64 default most limit found default_pos most_pos distinct encodable =
      walk_from b64 default most limit default_pos most_pos found
        (exchange_sort_lem place found distinct).0
        (exchange_sort-All place (λ x. IsEncodable (place x)) found encodable) (suc (length found))
        0 [] refl (omega (arith, length-exchange_sort place found))

  first_behind-none :
      (c : Place) (xs : List A)
      → All (λ x. behind c (place x) ≡ false) xs
      → first_behind place c xs ≡ none
  unfolding first_behind
  first_behind-none c [] h = refl
  first_behind-none c (x ∷ xs) h = rw (h.0, first_behind-none c xs h.1)

  start_index-past :
      (c : KeysetCursor) (xs : List A)
      → All (λ x. behind (record { time = c.created_at; id = c.id }) (place x) ≡ false) xs
      → start_index place (cursor c) xs ≡ 0
  unfolding start_index
  start_index-past c xs h = rw (first_behind-none _ xs h, start_index) refl

  -- A cursor that no item is behind, such as one whose later items were deleted, gets the first page
  -- again, as if no cursor had been sent.
  pub list_keyset_restarts :
      (b64 : Base64) (default most : ℕ) (limit : ℤ) (at : List ℕ) (c : KeysetCursor)
      (found : List A)
      → decode_cursor b64 at ≡ cursor c
      → All (λ x. behind (record { time = c.created_at; id = c.id }) (place x) ≡ false) found
      → list_keyset place b64 default most (record { cursor = at; limit = limit }) found
        ≡ list_keyset place b64 default most (record { cursor = []; limit = limit }) found
  unfolding list_keyset decode_cursor start_index
  list_keyset_restarts b64 default most limit at c found e h =
      let all = exchange_sort place found in
      ap (λ i. page_at place b64 (page_limit default most limit) i all)
        (ap (λ d. start_index place d all) e
          ∙ start_index-past c all (exchange_sort-All place _ found h))
