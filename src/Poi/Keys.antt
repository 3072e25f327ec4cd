-- ===== src/Poi/Keys.antt =====
-- The public keys that are valid at a milestone: `get_valid_public_keys_for_index` of
-- src/bin/inx-chronicle/api/poi/routes.rs and `MilestoneKeyRange` of src/model/node.rs. `Text` is
-- the type of strings; the hex crates, which the code calls, are parameters.
pub mod Applicable
use inx_chronicle.Common.{
  ℕ, Bool, true, false, ◌||◌, Option, none, some, List, [], ◌∷◌, ltb, leb, ◌==◌, Eq, if◌then◌else◌,
}
use inx_chronicle.Common.Bytes.{Bytes}
use inx_chronicle.Common.Run.{Run, ok, err}

pub record MilestoneKeyRange (Text : Type 0) : Type 0 where
  pub public_key : Text
  pub start : ℕ
  pub end : ℕ

pub data CorruptStateError (E : Type 0) : Type 0 where
  no_milestone_cone incomplete_milestone_cone decode_public_key : CorruptStateError E
  create_proof : E → CorruptStateError E

module _ {Text : Type 0} where
  -- `sort` is stable, and ranges compare by their start
  unfoldable pub insert_range :
      MilestoneKeyRange Text → List (MilestoneKeyRange Text) → List (MilestoneKeyRange Text)
  insert_range r [] = r ∷ []
  insert_range r (x ∷ xs) = if leb r.start x.start then r ∷ x ∷ xs else x ∷ insert_range r xs

  unfoldable pub sort : List (MilestoneKeyRange Text) → List (MilestoneKeyRange Text)
  sort [] = []
  sort (r ∷ rs) = insert_range r (sort rs)

module _ {Text : Type 0} ⦃text : Eq Text⦄ where
  -- membership in, and insertion into, a `HashSet<String>`
  unfoldable pub has_key : Text → List Text → Bool
  has_key k [] = false
  has_key k (x ∷ xs) = text.beq k x || has_key k xs

  unfoldable pub insert_key : Text → List Text → List Text
  insert_key k keys = if has_key k keys then keys else k ∷ keys

module _ {Text E : Type 0} ⦃text : Eq Text⦄ (decode_hex : Text → Option Bytes)
    (encode_hex : Bytes → Text) (index : ℕ) where
  -- the loop over the sorted ranges, with the set of keys so far
  unfoldable pub collect_keys :
      List (MilestoneKeyRange Text) → List Text → Run (CorruptStateError E) (List Text)
  collect_keys [] keys = ok keys
  collect_keys (r ∷ rs) keys =
      let skip = collect_keys rs keys in
      let take' : Run (CorruptStateError E) (List Text) = elim (decode_hex r.public_key) [
        | none ↦ err decode_public_key
        | some raw ↦ collect_keys rs (insert_key (encode_hex raw) keys)
      ] in
      if ltb index r.start
      then ok keys
      else if leb index r.end || r.start == r.end
      then take'
      else skip

  unfoldable pub get_valid_public_keys_for_index :
      List (MilestoneKeyRange Text) → Run (CorruptStateError E) (List Text)
  unfolding collect_keys
  get_valid_public_keys_for_index key_ranges = collect_keys (sort key_ranges) []
