-- ===== src/Analytics/Ledger/OutputActivity/Ids.antt =====
-- The ids of NFTs and aliases, as they are told apart.
use inx_chronicle.Common.{
  ◌≡◌, refl, Bool, not, ◌&&◌, ◌||◌, Bool-cases, inl, inr, if◌then◌else◌, arith,
}
use inx_chronicle.Common.Bytes.{Bytes, bytes_beq}
use inx_chronicle.Model.Address.{implicit}

-- the id is the given one, or, where that is implicit, the one made of the output id
abbrev pub is_named : Bytes → Bytes → Bytes → Bool
is_named k given made =
    bytes_beq given implicit && bytes_beq k made
    || not (bytes_beq given implicit) && bytes_beq k given

pub is_named-eq :
    (k given made : Bytes)
    → bytes_beq k (if bytes_beq given implicit then made else given) ≡ is_named k given made
is_named-eq k given made = elim (Bool-cases (bytes_beq given implicit)) [
  | inl zero_id ↦ rw zero_id (ground arith)
  | inr own_id ↦ rw own_id refl
]
