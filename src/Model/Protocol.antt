-- ===== src/Model/Protocol.antt =====
-- Protocol parameters and the node's configuration: src/model/protocol.rs, src/model/node.rs.
use Prim.Native.String.{String}
use inx_chronicle.Common.{ℕ}

pub record RentStructure : Type 0 where
  pub v_byte_cost : ℕ
  pub v_byte_factor_data : ℕ
  pub v_byte_factor_key : ℕ

pub record ProtocolParameters : Type 0 where
  pub version : ℕ
  pub network_name : String
  pub bech32_hrp : String
  pub min_pow_score : ℕ
  pub below_max_depth : ℕ
  pub rent_structure : RentStructure
  pub token_supply : ℕ
