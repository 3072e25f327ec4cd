-- ===== src/Api/Pagination.antt =====
-- The extractors of paginated requests:
-- src/bin/inx-chronicle/api/extractors.rs and src/bin/inx-chronicle/api/explorer/extractors.rs, from
-- the query on that axum reads, which is an argument, and with the largest page size of the
-- configuration as an argument.
pub mod Bounded
use Prim.Native.Nat.{min}
use inx_chronicle.Common.{
  ℕ, Bool, true, false, Option, none, some, List, [], ◌∷◌, ltb, if◌then◌else◌,
}
use inx_chronicle.Common.Bytes.{Bytes, bytes_beq}
use inx_chronicle.Common.Run.{Run, ok, err, panic, Done, done, ◌>>=◌}
use inx_chronicle.Model.Address.{OutputId}
use inx_chronicle.Api.Cursors.{
  RequestError, bad_time_range, sort_order, milestones_from_str, blocks_from_str,
  by_address_from_str, by_milestone_from_str,
}

abbrev pub default_page_size : ℕ
default_page_size = 100

abbrev pub default_top_richlist : ℕ
default_top_richlist = 100

pub data SortOrder : Type 0 where
  newest oldest : SortOrder

abbrev pub oldest_text : Bytes
oldest_text = b'o' ∷ b'l' ∷ b'd' ∷ b'e' ∷ b's' ∷ b't' ∷ []

abbrev pub newest_text : Bytes
newest_text = b'n' ∷ b'e' ∷ b'w' ∷ b'e' ∷ b's' ∷ b't' ∷ []

abbrev pub unwrap_or : ℕ → Option ℕ → ℕ
unwrap_or n none = n
unwrap_or n (some m) = m

pub record LedgerUpdatesByAddressPagination : Type 0 where
  pub page_size : ℕ
  pub sort : SortOrder
  pub cursor : Option (ℕ × Option (OutputId × Bool))

pub record LedgerUpdatesByAddressPaginationQuery : Type 0 where
  pub page_size : Option ℕ
  pub sort : Option Bytes
  pub start_milestone_index : Option ℕ
  pub cursor : Option Bytes

pub record LedgerUpdatesByMilestonePagination : Type 0 where
  pub page_size : ℕ
  pub cursor : Option (OutputId × Bool)

pub record LedgerUpdatesByMilestonePaginationQuery : Type 0 where
  pub page_size : Option ℕ
  pub cursor : Option Bytes

pub record MilestonesPagination : Type 0 where
  pub start_timestamp : Option ℕ
  pub end_timestamp : Option ℕ
  pub sort : SortOrder
  pub page_size : ℕ
  pub cursor : Option ℕ

pub record MilestonesPaginationQuery : Type 0 where
  pub start_timestamp : Option ℕ
  pub end_timestamp : Option ℕ
  pub sort : Option Bytes
  pub page_size : Option ℕ
  pub cursor : Option Bytes

pub record RichestAddressesQuery : Type 0 where
  pub top : ℕ
  pub ledger_index : Option ℕ

pub record MilestoneRange : Type 0 where
  pub start_index : Option ℕ
  pub end_index : Option ℕ

pub record BlocksByMilestoneIndexPagination : Type 0 where
  pub sort : SortOrder
  pub page_size : ℕ
  pub cursor : Option ℕ

pub record BlocksByMilestoneIndexPaginationQuery : Type 0 where
  pub sort : Option Bytes
  pub page_size : Option ℕ
  pub cursor : Option Bytes

pub record BlocksByMilestoneIdPagination : Type 0 where
  pub sort : SortOrder
  pub page_size : ℕ
  pub cursor : Option ℕ

pub record BlocksByMilestoneIdPaginationQuery : Type 0 where
  pub sort : Option Bytes
  pub page_size : Option ℕ
  pub cursor : Option Bytes

pub record Pagination : Type 0 where
  pub page_size : ℕ
  pub page : ℕ

pub record TimeRange : Type 0 where
  pub start_timestamp : Option ℕ
  pub end_timestamp : Option ℕ

-- `matches!((start, end), (Some(start), Some(end)) if end < start)`
abbrev pub is_reversed : Option ℕ → Option ℕ → Bool
is_reversed (some start) (some end') = ltb end' start
is_reversed _ _ = false

module _ {E : Type 0} where
  -- `SortOrder::from_str`
  unfoldable pub parse_sort : Bytes → Run (RequestError E) SortOrder
  parse_sort s =
      if bytes_beq s oldest_text
      then ok oldest
      else if bytes_beq s newest_text
      then ok newest
      else err (sort_order s)

  -- `.map_or(Ok(Default::default()), str::parse)`
  abbrev pub sort_of : Option Bytes → Run (RequestError E) SortOrder
  sort_of none = ok newest
  sort_of (some s) = parse_sort s

  abbrev pub check_range : Option ℕ → Option ℕ → Run (RequestError E) Done
  check_range start end' = if is_reversed start end' then err bad_time_range else ok done

  abbrev pub milestones_page : Option ℕ → Option Bytes → Run (RequestError E) (ℕ × Option ℕ)
  milestones_page page_size none = ok (unwrap_or default_page_size page_size, none)
  milestones_page page_size (some s) = do
    cursor ← milestones_from_str s
    ok (cursor.page_size, some cursor.milestone_index)

  abbrev pub blocks_page : Option ℕ → Option Bytes → Run (RequestError E) (ℕ × Option ℕ)
  blocks_page page_size none = ok (unwrap_or default_page_size page_size, none)
  blocks_page page_size (some s) = do
    cursor ← blocks_from_str s
    ok (cursor.page_size, some cursor.white_flag_index)

  -- `MilestonesPagination::from_request`
  unfoldable pub milestones_request :
      ℕ → MilestonesPaginationQuery → Run (RequestError E) MilestonesPagination
  milestones_request max_page_size query = do
    checked ← check_range query.start_timestamp query.end_timestamp
    sort ← sort_of query.sort
    page ← milestones_page query.page_size query.cursor
    ok record {
      start_timestamp = query.start_timestamp;
      end_timestamp = query.end_timestamp;
      sort = sort;
      page_size = min page.0 max_page_size;
      cursor = page.1;
    }

  -- `BlocksByMilestoneIndexPagination::from_request`
  unfoldable pub blocks_by_index_request :
      ℕ
      → BlocksByMilestoneIndexPaginationQuery
      → Run (RequestError E) BlocksByMilestoneIndexPagination
  blocks_by_index_request max_page_size query = do
    sort ← sort_of query.sort
    page ← blocks_page query.page_size query.cursor
    ok record { sort = sort; page_size = min page.0 max_page_size; cursor = page.1 }

  -- `BlocksByMilestoneIdPagination::from_request`
  unfoldable pub blocks_by_id_request :
      ℕ → BlocksByMilestoneIdPaginationQuery → Run (RequestError E) BlocksByMilestoneIdPagination
  blocks_by_id_request max_page_size query = do
    sort ← sort_of query.sort
    page ← blocks_page query.page_size query.cursor
    ok record { sort = sort; page_size = min page.0 max_page_size; cursor = page.1 }

  -- `MilestoneRange::from_request`
  unfoldable pub milestone_range_request : MilestoneRange → Run (RequestError E) MilestoneRange
  milestone_range_request query = do
    checked ← check_range query.start_index query.end_index
    ok query

  -- `TimeRange::from_request`
  unfoldable pub time_range_request : TimeRange → Run (RequestError E) TimeRange
  time_range_request query = do
    checked ← check_range query.start_timestamp query.end_timestamp
    ok query

  module _ (parse_output_id : Bytes → Run E OutputId) where
    abbrev pub start_at : Option ℕ → Option (ℕ × Option (OutputId × Bool))
    start_at none = none
    start_at (some i) = some (i, none)

    abbrev pub by_address_page :
        Option ℕ
        → Option ℕ
        → Option Bytes
        → Run (RequestError E) (ℕ × Option (ℕ × Option (OutputId × Bool)))
    by_address_page page_size start none =
        ok (unwrap_or default_page_size page_size, start_at start)
    by_address_page page_size start (some s) = do
      cursor ← by_address_from_str parse_output_id s
      ok (cursor.page_size, some (cursor.milestone_index, some (cursor.output_id, cursor.is_spent)))

    abbrev pub by_milestone_page :
        Option ℕ → Option Bytes → Run (RequestError E) (ℕ × Option (OutputId × Bool))
    by_milestone_page page_size none = ok (unwrap_or default_page_size page_size, none)
    by_milestone_page page_size (some s) = do
      cursor ← by_milestone_from_str parse_output_id s
      ok (cursor.page_size, some (cursor.output_id, cursor.is_spent))

    -- `LedgerUpdatesByAddressPagination::from_request`
    unfoldable pub by_address_request :
        ℕ
        → LedgerUpdatesByAddressPaginationQuery
        → Run (RequestError E) LedgerUpdatesByAddressPagination
    by_address_request max_page_size query = do
      sort ← sort_of query.sort
      page ← by_address_page query.page_size query.start_milestone_index query.cursor
      ok record { page_size = min page.0 max_page_size; sort = sort; cursor = page.1 }

    -- `LedgerUpdatesByMilestonePagination::from_request`
    unfoldable pub by_milestone_request :
        ℕ
        → LedgerUpdatesByMilestonePaginationQuery
        → Run (RequestError E) LedgerUpdatesByMilestonePagination
    by_milestone_request max_page_size query = do
      page ← by_milestone_page query.page_size query.cursor
      ok record { page_size = min page.0 max_page_size; cursor = page.1 }

-- `RichestAddressesQuery::from_request`
unfoldable pub richest_addresses_request : ℕ → RichestAddressesQuery → RichestAddressesQuery
richest_addresses_request max_page_size query = record query { top = min query.top max_page_size }

-- `Pagination::from_request`
unfoldable pub pagination_request : ℕ → Pagination → Pagination
pagination_request max_page_size query = record query {
  page_size = min query.page_size max_page_size;
}
