-- ===== src/Api/Cursors.antt =====
-- The cursors of the explorer and the indexer:
-- src/bin/inx-chronicle/api/{explorer,indexer}/extractors.rs. The hex encoding of the crate
-- prefix_hex is a parameter, and so is the reading of an output id by iota_types, with its errors of
-- the type `E`.
pub mod RoundTrip
use inx_chronicle.Common.{ℕ, Bool, List, [], ◌∷◌, ◌++◌}
use inx_chronicle.Common.Bytes.{Bytes}
use inx_chronicle.Common.Run.{Run, ok, err, panic, ◌>>=◌, map_err}
use inx_chronicle.Model.Address.{OutputId, to_hex}
use inx_chronicle.Api.Numbers.{
  ParseError, to_string, parse_uint, u32_max, usize_max, bool_to_string, parse_bool, split_dots,
}

pub data RequestError (E : Type 0) : Type 0 where
  bad_paging_state bad_time_range : RequestError E
  parse_error : ParseError → RequestError E
  iota_types : E → RequestError E
  sort_order : Bytes → RequestError E

pub record LedgerUpdatesByAddressCursor : Type 0 where
  pub milestone_index : ℕ
  pub output_id : OutputId
  pub is_spent : Bool
  pub page_size : ℕ

pub record LedgerUpdatesByMilestoneCursor : Type 0 where
  pub output_id : OutputId
  pub is_spent : Bool
  pub page_size : ℕ

pub record MilestonesCursor : Type 0 where
  pub milestone_index : ℕ
  pub page_size : ℕ

pub record BlocksByMilestoneCursor : Type 0 where
  pub white_flag_index : ℕ
  pub page_size : ℕ

pub record IndexedOutputsCursor : Type 0 where
  pub milestone_index : ℕ
  pub output_id : OutputId
  pub page_size : ℕ

-- two parts with a dot between them
abbrev pub with_dot : Bytes → Bytes → Bytes
with_dot part rest = part ++ b'.' ∷ rest

module _ {E : Type 0} where
  abbrev pub parse_u32 : Bytes → Run (RequestError E) ℕ
  parse_u32 part = map_err parse_error (parse_uint u32_max part)

  abbrev pub parse_usize : Bytes → Run (RequestError E) ℕ
  parse_usize part = map_err parse_error (parse_uint usize_max part)

  abbrev pub parse_flag : Bytes → Run (RequestError E) Bool
  parse_flag part = map_err parse_error (parse_bool part)

  abbrev pub milestones_parts : List Bytes → Run (RequestError E) MilestonesCursor
  milestones_parts (m ∷ ps ∷ []) = do
    milestone_index ← parse_u32 m
    page_size ← parse_usize ps
    ok record { milestone_index = milestone_index; page_size = page_size }
  milestones_parts _ = err bad_paging_state

  abbrev pub blocks_parts : List Bytes → Run (RequestError E) BlocksByMilestoneCursor
  blocks_parts (wfi ∷ ps ∷ []) = do
    white_flag_index ← parse_u32 wfi
    page_size ← parse_usize ps
    ok record { white_flag_index = white_flag_index; page_size = page_size }
  blocks_parts _ = err bad_paging_state

  -- `MilestonesCursor::from_str`
  unfoldable pub milestones_from_str : Bytes → Run (RequestError E) MilestonesCursor
  milestones_from_str s = milestones_parts (split_dots s)

  -- `BlocksByMilestoneCursor::from_str`
  unfoldable pub blocks_from_str : Bytes → Run (RequestError E) BlocksByMilestoneCursor
  blocks_from_str s = blocks_parts (split_dots s)

  module _ (parse_output_id : Bytes → Run E OutputId) where
    abbrev pub parse_id : Bytes → Run (RequestError E) OutputId
    parse_id part = map_err iota_types (parse_output_id part)

    abbrev pub by_address_parts : List Bytes → Run (RequestError E) LedgerUpdatesByAddressCursor
    by_address_parts (ms ∷ o ∷ sp ∷ ps ∷ []) = do
      milestone_index ← parse_u32 ms
      output_id ← parse_id o
      is_spent ← parse_flag sp
      page_size ← parse_usize ps
      ok record {
        milestone_index = milestone_index;
        output_id = output_id;
        is_spent = is_spent;
        page_size = page_size;
      }
    by_address_parts _ = err bad_paging_state

    abbrev pub by_milestone_parts : List Bytes → Run (RequestError E) LedgerUpdatesByMilestoneCursor
    by_milestone_parts (o ∷ sp ∷ ps ∷ []) = do
      output_id ← parse_id o
      is_spent ← parse_flag sp
      page_size ← parse_usize ps
      ok record { output_id = output_id; is_spent = is_spent; page_size = page_size }
    by_milestone_parts _ = err bad_paging_state

    abbrev pub indexed_parts : List Bytes → Run (RequestError E) IndexedOutputsCursor
    indexed_parts (ms ∷ o ∷ ps ∷ []) = do
      milestone_index ← parse_u32 ms
      output_id ← parse_id o
      page_size ← parse_usize ps
      ok record { milestone_index = milestone_index; output_id = output_id; page_size = page_size }
    indexed_parts _ = err bad_paging_state

    -- `LedgerUpdatesByAddressCursor::from_str`
    unfoldable pub by_address_from_str : Bytes → Run (RequestError E) LedgerUpdatesByAddressCursor
    by_address_from_str s = by_address_parts (split_dots s)

    -- `LedgerUpdatesByMilestoneCursor::from_str`
    unfoldable pub by_milestone_from_str :
        Bytes → Run (RequestError E) LedgerUpdatesByMilestoneCursor
    by_milestone_from_str s = by_milestone_parts (split_dots s)

    -- `IndexedOutputsCursor::from_str`
    unfoldable pub indexed_from_str : Bytes → Run (RequestError E) IndexedOutputsCursor
    indexed_from_str s = indexed_parts (split_dots s)

-- `Display` of the cursors
unfoldable pub milestones_fmt : MilestonesCursor → Bytes
milestones_fmt c = with_dot (to_string c.milestone_index) (to_string c.page_size)

unfoldable pub blocks_fmt : BlocksByMilestoneCursor → Bytes
blocks_fmt c = with_dot (to_string c.white_flag_index) (to_string c.page_size)

module _ (encode : Bytes → Bytes) where
  unfoldable pub by_address_fmt : LedgerUpdatesByAddressCursor → Bytes
  by_address_fmt c = with_dot (to_string c.milestone_index) (
      with_dot (to_hex encode c.output_id)
        (with_dot (bool_to_string c.is_spent) (to_string c.page_size)))

  unfoldable pub by_milestone_fmt : LedgerUpdatesByMilestoneCursor → Bytes
  by_milestone_fmt c =
      with_dot (to_hex encode c.output_id)
        (with_dot (bool_to_string c.is_spent) (to_string c.page_size))

  unfoldable pub indexed_fmt : IndexedOutputsCursor → Bytes
  indexed_fmt c =
      with_dot (to_string c.milestone_index)
        (with_dot (to_hex encode c.output_id) (to_string c.page_size))
