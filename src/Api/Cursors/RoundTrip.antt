-- ===== src/Api/Cursors/RoundTrip.antt =====
-- Cursors that are printed and read.
use inx_chronicle.Common.{
  ℕ, ◌≤◌, ◌<◌, length, ◌≡◌, ◌∙◌, refl, ap, Bool, true, false, [], ◌∷◌, arith,
}
use inx_chronicle.Common.Bytes.{Bytes}
use inx_chronicle.Common.Run.{Run, ok}
use inx_chronicle.Model.Address.{OutputId, to_hex}
use inx_chronicle.Api.Numbers.{
  to_string, parse_uint, u32_max, usize_max, bool_to_string, parse_bool, split_dots,
}
use inx_chronicle.Api.Numbers.Decimal.{HasNoDot, to_string-HasNoDot, parse_uint-to_string}
use inx_chronicle.Api.Numbers.Split.{split_dots-part, split_dots-append}
use inx_chronicle.Api.Cursors.{
  LedgerUpdatesByAddressCursor, LedgerUpdatesByMilestoneCursor, MilestonesCursor,
  BlocksByMilestoneCursor, IndexedOutputsCursor, with_dot, milestones_from_str, blocks_from_str,
  by_address_from_str, by_milestone_from_str, indexed_from_str, milestones_fmt, blocks_fmt,
  by_address_fmt, by_milestone_fmt, indexed_fmt,
}

read_u32 : (n : ℕ) → n ≤ u32_max → parse_uint u32_max (to_string n) ≡ ok n
read_u32 n h = parse_uint-to_string u32_max n h (omega arith)

read_usize : (n : ℕ) → n ≤ usize_max → parse_uint usize_max (to_string n) ≡ ok n
read_usize n h = parse_uint-to_string usize_max n h (omega arith)

read_bool : (b : Bool) → parse_bool (bool_to_string b) ≡ ok b
unfolding parse_bool
read_bool true = refl
read_bool false = refl

bool_to_string-HasNoDot : (b : Bool) → HasNoDot (bool_to_string b)
bool_to_string-HasNoDot true = omega arith
bool_to_string-HasNoDot false = omega arith

split_two : (a b : Bytes) → HasNoDot a → HasNoDot b → split_dots (with_dot a b) ≡ a ∷ b ∷ []
split_two a b ha hb = split_dots-append a b ha ∙ ap (λ ps. a ∷ ps) (split_dots-part b hb)

split_three :
    (a b c : Bytes)
    → HasNoDot a
    → HasNoDot b
    → HasNoDot c
    → split_dots (with_dot a (with_dot b c)) ≡ a ∷ b ∷ c ∷ []
split_three a b c ha hb hc =
    split_dots-append a (with_dot b c) ha ∙ ap (λ ps. a ∷ ps) (split_two b c hb hc)

-- A milestone cursor whose index is a 32 bit number and whose page size is a 64 bit number is read
-- back from its text.
pub milestones_from_str-milestones_fmt :
    {E : Type 0} (c : MilestonesCursor)
    → c.milestone_index ≤ u32_max
    → c.page_size ≤ usize_max
    → milestones_from_str {E = E} (milestones_fmt c) ≡ ok c
unfolding milestones_from_str milestones_fmt
milestones_from_str-milestones_fmt c hm hp =
    rw
      (
        split_two (to_string c.milestone_index) (to_string c.page_size)
            (to_string-HasNoDot c.milestone_index) (to_string-HasNoDot c.page_size),
        read_u32 c.milestone_index hm,
        read_usize c.page_size hp,
      )
      refl

-- The same for a cursor in the blocks of a milestone.
pub blocks_from_str-blocks_fmt :
    {E : Type 0} (c : BlocksByMilestoneCursor)
    → c.white_flag_index ≤ u32_max
    → c.page_size ≤ usize_max
    → blocks_from_str {E = E} (blocks_fmt c) ≡ ok c
unfolding blocks_from_str blocks_fmt
blocks_from_str-blocks_fmt c hm hp =
    rw
      (
        split_two (to_string c.white_flag_index) (to_string c.page_size)
            (to_string-HasNoDot c.white_flag_index) (to_string-HasNoDot c.page_size),
        read_u32 c.white_flag_index hm,
        read_usize c.page_size hp,
      )
      refl

abbrev pub AreBytes : Bytes → Type 0
AreBytes [] = Unit
AreBytes (b ∷ bytes) = (b < 256) × AreBytes bytes

-- the output ids that iota_types accepts: 32 bytes, and one of at most 128 outputs
abbrev pub IsOutputId : OutputId → Type 0
IsOutputId id = (length id.transaction_id ≡ 32) × AreBytes id.transaction_id × (id.index < 128)

module _ {E : Type 0} (encode : Bytes → Bytes) (parse_output_id : Bytes → Run E OutputId)
    (hex_no_dot : (id : OutputId) → IsOutputId id → HasNoDot (to_hex encode id))
    (hex_read : (id : OutputId) → IsOutputId id → parse_output_id (to_hex encode id) ≡ ok id) where
  -- When an output id that iota_types accepts is read back from its text, which has no dot, then so is
  -- a cursor in the ledger updates of an address with such an id, whose milestone index is a 32 bit
  -- number and whose page size is a 64 bit number.
  pub by_address_from_str-by_address_fmt :
      (c : LedgerUpdatesByAddressCursor)
      → IsOutputId c.output_id
      → c.milestone_index ≤ u32_max
      → c.page_size ≤ usize_max
      → by_address_from_str parse_output_id (by_address_fmt encode c) ≡ ok c
  unfolding by_address_from_str by_address_fmt
  by_address_from_str-by_address_fmt c ho hm hp =
      let m = to_string c.milestone_index in
      let o = to_hex encode c.output_id in
      let b = bool_to_string c.is_spent in
      let p = to_string c.page_size in
      rw
        (
          split_dots-append m (with_dot o (with_dot b p)) (to_string-HasNoDot c.milestone_index),
          split_three o b p (hex_no_dot c.output_id ho) (bool_to_string-HasNoDot c.is_spent)
              (to_string-HasNoDot c.page_size),
          read_u32 c.milestone_index hm,
          hex_read c.output_id ho,
          read_bool c.is_spent,
          read_usize c.page_size hp,
        )
        refl

  -- The same for a cursor in the ledger updates of a milestone.
  pub by_milestone_from_str-by_milestone_fmt :
      (c : LedgerUpdatesByMilestoneCursor)
      → IsOutputId c.output_id
      → c.page_size ≤ usize_max
      → by_milestone_from_str parse_output_id (by_milestone_fmt encode c) ≡ ok c
  unfolding by_milestone_from_str by_milestone_fmt
  by_milestone_from_str-by_milestone_fmt c ho hp =
      rw
        (
          split_three (to_hex encode c.output_id) (bool_to_string c.is_spent)
              (to_string c.page_size) (hex_no_dot c.output_id ho)
              (bool_to_string-HasNoDot c.is_spent) (to_string-HasNoDot c.page_size),
          hex_read c.output_id ho,
          read_bool c.is_spent,
          read_usize c.page_size hp,
        )
        refl

  -- When an output id that iota_types accepts, of 32 bytes and an index below 128, is read back from
  -- its hex text, which has no dot, then a cursor of the indexer with such an id, an index of 32 bits
  -- and a page size of 64 bits is read back from its text.
  pub indexed_from_str-indexed_fmt :
      (c : IndexedOutputsCursor)
      → IsOutputId c.output_id
      → c.milestone_index ≤ u32_max
      → c.page_size ≤ usize_max
      → indexed_from_str parse_output_id (indexed_fmt encode c) ≡ ok c
  unfolding indexed_from_str indexed_fmt
  indexed_from_str-indexed_fmt c ho hm hp =
      rw
        (
          split_three (to_string c.milestone_index) (to_hex encode c.output_id)
              (to_string c.page_size) (to_string-HasNoDot c.milestone_index)
              (hex_no_dot c.output_id ho) (to_string-HasNoDot c.page_size),
          read_u32 c.milestone_index hm,
          hex_read c.output_id ho,
          read_usize c.page_size hp,
        )
        refl
