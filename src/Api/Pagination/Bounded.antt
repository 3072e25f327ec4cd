-- ===== src/Api/Pagination/Bounded.antt =====
-- The page sizes and ranges of the requests that are accepted, and requests that follow a cursor.
use Prim.Native.Nat.{min}
use inx_chronicle.Common.{
  ℕ, ◌≤◌, ◌<◌, ◌≡◌, refl, sym, ap, ◌∙◌, false, Bool-cases, inl, inr, lt→ltb, Option, some, arith,
}
use inx_chronicle.Common.Bytes.{Bytes}
use inx_chronicle.Common.Run.{Run, ok, err, Done, >>=-eq-ok, ok-injective}
use inx_chronicle.Model.Address.{OutputId, to_hex}
use inx_chronicle.Api.Numbers.{u32_max, usize_max}
use inx_chronicle.Api.Numbers.Decimal.{HasNoDot}
use inx_chronicle.Api.Cursors.{bad_time_range, LedgerUpdatesByAddressCursor, by_address_fmt}
use inx_chronicle.Api.Cursors.RoundTrip.{IsOutputId, by_address_from_str-by_address_fmt}
use inx_chronicle.Api.Pagination.{
  SortOrder, MilestonesPagination, MilestonesPaginationQuery, LedgerUpdatesByAddressPaginationQuery,
  is_reversed, sort_of, check_range, milestones_page, milestones_request, by_address_request,
}

-- a page size that is the smaller of two, of which one is the largest allowed
min_bound : (n m largest : ℕ) → n ≡ min m largest → n ≤ largest
min_bound n m largest h = omega (arith, h)

module _ {E : Type 0} where
  check_range-ok :
      (start end' : Option ℕ) (d : Done)
      → check_range {E = E} start end' ≡ ok d
      → is_reversed start end' ≡ false
  check_range-ok start end' d h = elim (Bool-cases (is_reversed start end')) [
    | inl reversed ↦ absurd (cc (rw reversed at h))
    | inr in_order ↦ in_order
  ]

  check_range-err :
      (start end' : ℕ)
      → end' < start
      → check_range {E = E} (some start) (some end') ≡ err bad_time_range
  check_range-err start end' h = rw (lt→ltb end' start h) refl

  -- A request for milestones whose time range ends before it starts is refused, whatever else it has.
  pub milestones_request-reversed :
      (max_page_size start end' : ℕ) (query : MilestonesPaginationQuery)
      → query.start_timestamp ≡ some start
      → query.end_timestamp ≡ some end'
      → end' < start
      → milestones_request {E = E} max_page_size query ≡ err bad_time_range
  unfolding milestones_request
  milestones_request-reversed max_page_size start end' query hs he h =
      rw (hs, he, check_range-err start end' h) refl

  -- A milestones request that is accepted has a page that is not larger than the largest allowed, and
  -- a time range that does not end before it starts.
  pub milestones_request-bounded :
      (max_page_size : ℕ) (query : MilestonesPaginationQuery) (r : MilestonesPagination)
      → milestones_request {E = E} max_page_size query ≡ ok r
      → (r.page_size ≤ max_page_size) × (is_reversed r.start_timestamp r.end_timestamp ≡ false)
  unfolding milestones_request
  milestones_request-bounded max_page_size query r h =
      let (checked, fine, h1) =
        >>=-eq-ok (check_range query.start_timestamp query.end_timestamp) _ h in
      let (sort, sorted, h2) = >>=-eq-ok (sort_of query.sort) _ h1 in
      let (page, found, h3) = >>=-eq-ok (milestones_page query.page_size query.cursor) _ h2 in
      let e = ok-injective h3 in
      (
        min_bound r.page_size page.0 max_page_size (ap (λ x. x.page_size) (sym e)),
        ap (λ x. is_reversed x.start_timestamp x.end_timestamp) (sym e)
            ∙ check_range-ok query.start_timestamp query.end_timestamp checked fine,
      )

  -- When an output id that iota_types accepts, of 32 bytes and an index below 128, is read back from
  -- its hex text, which has no dot, and the cursor of a request for the ledger updates of an address
  -- is the text of a cursor with such an id, an index of 32 bits and a page size of 64 bits, then the
  -- request is accepted if its sort order is: it leads on from the milestone, output and flag of the
  -- cursor, with its page size cut at the largest allowed.
  pub by_address_request-resumes :
      (encode : Bytes → Bytes) (parse_output_id : Bytes → Run E OutputId) (max_page_size : ℕ)
      (query : LedgerUpdatesByAddressPaginationQuery) (sort : SortOrder)
      (c : LedgerUpdatesByAddressCursor)
      → ((id : OutputId) → IsOutputId id → HasNoDot (to_hex encode id))
      → ((id : OutputId) → IsOutputId id → parse_output_id (to_hex encode id) ≡ ok id)
      → sort_of {E = E} query.sort ≡ ok sort
      → query.cursor ≡ some (by_address_fmt encode c)
      → IsOutputId c.output_id
      → c.milestone_index ≤ u32_max
      → c.page_size ≤ usize_max
      → by_address_request parse_output_id max_page_size query
        ≡ ok record {
          page_size = min c.page_size max_page_size;
          sort = sort;
          cursor = some (c.milestone_index, some (c.output_id, c.is_spent));
        }
  unfolding by_address_request
  by_address_request-resumes encode parse_output_id max_page_size query sort c no_dot read hs hc ho
        hm hp =
      rw (hs, hc, by_address_from_str-by_address_fmt encode parse_output_id no_dot read c ho hm hp)
        refl
