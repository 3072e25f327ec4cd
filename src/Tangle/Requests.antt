-- ===== src/Tangle/Requests.antt =====
-- The requests of milestones over INX: src/inx/request.rs. The messages of the protocol are records
-- with the fields that the requests fill. The indexes are `u32` numbers, which wrap around.
use inx_chronicle.Common.{ℕ, ◌+◌, ◌-◌, ◌%◌, ◌^◌, ◌<◌, Bool, true, Option, none, some, ltb, leb}
use inx_chronicle.Common.Bytes.{Bytes}
use inx_chronicle.Tangle.MongoDb.{Bound, included, excluded, unbounded}

pub data MilestoneRequest : Type 0 where
  milestone_index : ℕ → MilestoneRequest
  milestone_id : Bytes → MilestoneRequest

-- `proto::MilestoneRequest`
pub record MilestoneRequestMessage : Type 0 where
  pub index : ℕ
  pub id : Option Bytes

-- `From<MilestoneRequest> for proto::MilestoneRequest`
unfoldable pub milestone_request : MilestoneRequest → MilestoneRequestMessage
milestone_request (milestone_index i) = record { index = i; id = none }
milestone_request (milestone_id i) = record { index = 0; id = some i }

pub record MilestoneRangeRequest : Type 0 where
  pub start_milestone_index : ℕ
  pub end_milestone_index : ℕ

abbrev pub range_start : Bound → ℕ
range_start (included index) = index
range_start (excluded index) = (index + 1) % 2 ^ 32
range_start unbounded = 0

abbrev pub range_end : Bound → ℕ
range_end (included index) = index
range_end (excluded index) = (index + (2 ^ 32 - 1)) % 2 ^ 32
range_end unbounded = 0

unfoldable pub to_milestone_range_request : Bound → Bound → MilestoneRangeRequest
to_milestone_range_request start end' = record {
  start_milestone_index = range_start start;
  end_milestone_index = range_end end';
}

-- `RangeBounds::contains`, of a start and of an end
abbrev pub after_start : Bound → ℕ → Bool
after_start (included a) i = leb a i
after_start (excluded a) i = ltb a i
after_start unbounded i = true

abbrev pub before_end : Bound → ℕ → Bool
before_end (included b) i = leb i b
before_end (excluded b) i = ltb i b
before_end unbounded i = true

-- a start and an end that a `u32` number can express
abbrev IsStart : Bound → Type 0
IsStart (included a) = a < 2 ^ 32
IsStart (excluded a) = a + 1 < 2 ^ 32
IsStart unbounded = Unit

abbrev IsEnd : Bound → Type 0
IsEnd (included b) = b < 2 ^ 32
IsEnd (excluded b) = (0 < b) × (b < 2 ^ 32)
IsEnd unbounded = ⊥
