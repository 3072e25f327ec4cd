-- ===== src/Tests/Api.antt =====
-- Requests with cursors.
use inx_chronicle.Common.{ℕ, ◌≤◌, ◌≡◌, refl, false, none, some, [], ◌∷◌, arith}
use inx_chronicle.Common.Bytes.{Bytes}
use inx_chronicle.Common.Run.{ok, err}
use inx_chronicle.Model.Address.{OutputId}
use inx_chronicle.Api.Numbers.{
  to_string, put_digits, take_digits, parse_uint, split_dots, u32_max, int_overflow,
}
use inx_chronicle.Api.Cursors.{
  LedgerUpdatesByAddressCursor, IndexedOutputsCursor, by_address_fmt, indexed_fmt, indexed_from_str,
  milestones_from_str, bad_paging_state,
}
use inx_chronicle.Api.Cursors.RoundTrip.{AreBytes, IsOutputId, indexed_from_str-indexed_fmt}
use inx_chronicle.Tests.Hex.{
  are_bytes-AreBytes, encode, parse_output_id, to_hex-HasNoDot, parse_output_id-to_hex,
}
use inx_chronicle.Api.Pagination.{
  MilestonesPagination, MilestonesPaginationQuery, milestones_request, is_reversed,
  LedgerUpdatesByAddressPaginationQuery, by_address_request, newest,
}
use inx_chronicle.Api.Pagination.Bounded.{milestones_request-bounded, by_address_request-resumes}

-- 32 bytes
abbrev transaction_id : Bytes
transaction_id =
    7 ∷ 255 ∷ 0 ∷ 0 ∷ 0 ∷ 0 ∷ 0 ∷ 0 ∷ 0 ∷ 0 ∷ 0 ∷ 0 ∷ 0 ∷ 0 ∷ 0 ∷ 0 ∷ 0 ∷ 0 ∷ 0 ∷ 0 ∷ 0 ∷ 0 ∷ 0 ∷ 0
    ∷ 0 ∷ 0 ∷ 0 ∷ 0 ∷ 0 ∷ 0 ∷ 0 ∷ 46 ∷ []

abbrev output_id : OutputId
output_id = record { transaction_id = transaction_id; index = 1 }

transaction_id-AreBytes : AreBytes transaction_id
transaction_id-AreBytes = are_bytes-AreBytes transaction_id refl

output_id-IsOutputId : IsOutputId output_id
output_id-IsOutputId = (refl, transaction_id-AreBytes, omega arith)

abbrev cursor : LedgerUpdatesByAddressCursor
cursor = record {
  milestone_index = 164_338_324;
  output_id = output_id;
  is_spent = false;
  page_size = 1337;
}

abbrev query : LedgerUpdatesByAddressPaginationQuery
query = record {
  page_size = none;
  sort = none;
  start_milestone_index = none;
  cursor = some (by_address_fmt encode cursor);
}

by_address_request-resumes_example :
    by_address_request parse_output_id 1000 query
    ≡ ok record {
      page_size = 1000;
      sort = newest;
      cursor = some (164_338_324, some (output_id, false));
    }
by_address_request-resumes_example =
    by_address_request-resumes encode parse_output_id 1000 query newest cursor to_hex-HasNoDot
      parse_output_id-to_hex refl refl output_id-IsOutputId (omega arith) (omega arith)

abbrev indexed : IndexedOutputsCursor
indexed = record { milestone_index = 12; output_id = output_id; page_size = 10 }

indexed_from_str-indexed_fmt_example :
    indexed_from_str parse_output_id (indexed_fmt encode indexed) ≡ ok indexed
indexed_from_str-indexed_fmt_example =
    indexed_from_str-indexed_fmt encode parse_output_id to_hex-HasNoDot parse_output_id-to_hex
      indexed output_id-IsOutputId (omega arith) (omega arith)

abbrev milestones_query : MilestonesPaginationQuery
milestones_query = record {
  start_timestamp = some 3;
  end_timestamp = some 8;
  sort = none;
  page_size = some 5000;
  cursor = none;
}

abbrev milestones_page_of : MilestonesPagination
milestones_page_of = record {
  start_timestamp = some 3;
  end_timestamp = some 8;
  sort = newest;
  page_size = 1000;
  cursor = none;
}

milestones_request-bounded_example : (1000 ≤ 1000) × (is_reversed (some 3) (some 8) ≡ false)
unfolding milestones_request
milestones_request-bounded_example =
    milestones_request-bounded {E = ℕ} 1000 milestones_query milestones_page_of refl

too_many_parts :
    milestones_from_str {E = ℕ} (b'1' ∷ b'.' ∷ b'2' ∷ b'.' ∷ b'3' ∷ []) ≡ err bad_paging_state
unfolding milestones_from_str split_dots
too_many_parts = refl

prints : to_string 1337 ≡ b'1' ∷ b'3' ∷ b'3' ∷ b'7' ∷ []
unfolding to_string put_digits
prints = refl

overflows : parse_uint u32_max (to_string 4_294_967_296) ≡ err int_overflow
unfolding parse_uint to_string put_digits take_digits
overflows = refl
