-- ===== src/Poi/Routes/Created.antt =====
-- What a successful answer of the `create_proof` handlers proves.
use inx_chronicle.Common.{
  ℕ, ◌≤◌, ◌≡◌, refl, ◌∙◌, Bool, true, false, not, Option, none, some, List, arith, length, ◌==◌,
}
use inx_chronicle.Common.Bytes.{Bytes, bytes_beq_iff}
use inx_chronicle.Common.Run.{
  Run, ok, err, panic, ok_or, or_panic, map_err, >>=-eq-ok, >>=-ok_cases, ok-injective,
}
use inx_chronicle.Model.Milestone.{MilestonePayload}
use inx_chronicle.Model.Metadata.{BlockMetadata, is_included}
use inx_chronicle.Model.Block.{Block}
use inx_chronicle.Db.Collections.{
  Database, get_block_metadata, get_block_raw, get_referenced_blocks_in_white_flag_order,
  get_applied_blocks_in_white_flag_order, get_milestone_payload,
}
use inx_chronicle.Poi.Hasher.{u32_mod}
use inx_chronicle.Poi.Proof.{MerkleAuditPath, hash_path, path_contains_block_id, contains}
use inx_chronicle.Poi.Proof.Create.{create_audit_path_ok}
use inx_chronicle.Poi.Dto.{MerkleAuditPathDto, path_to_dto}
use inx_chronicle.Poi.Keys.{no_milestone_cone, incomplete_milestone_cone}
use inx_chronicle.Poi.Routes.{
  Iota, ApiError, CreateProofResponse, fail_if, respond, iota_stardust, no_results, request,
  block_not_referenced, block_not_applied, corrupt_state, get_block, is_empty,
  create_proof_for_referenced_blocks, create_proof_for_applied_blocks,
}

pub ok_or-eq-ok {ℓ} :
    {E : Type 0} {A : Type ℓ} (o : Option A) (e : E) {a : A} → ok_or o e ≡ ok a → o ≡ some a
ok_or-eq-ok none e h = cc
ok_or-eq-ok (some a) e h = cc

pub or_panic-eq-ok {ℓ} :
    {E : Type 0} {A : Type ℓ} (o : Option A) {a : A}
    → ◌≡◌ {A = Run E A} (or_panic o) (ok a)
    → o ≡ some a
or_panic-eq-ok none h = cc
or_panic-eq-ok (some a) h = cc

pub map_err-eq-ok {ℓ} :
    {E F : Type 0} {A : Type ℓ} (f : E → F) (m : Run E A) {a : A} → map_err f m ≡ ok a → m ≡ ok a
map_err-eq-ok f (ok a) h = cc
map_err-eq-ok f (err e) h = cc
map_err-eq-ok f panic h = cc

pub fail_if-eq-ok : (b : Bool) (e : ApiError) {u : Unit {0}} → fail_if b e ≡ ok u → b ≡ false
fail_if-eq-ok true e h = cc
fail_if-eq-ok false e h = refl

pub not-eq-false : (b : Bool) → not b ≡ false → b ≡ true
not-eq-false b h = ground arith

module _ (iota : Iota) where
  open iota use {Text, digest, encode, parse_block_id, unpack_block, block_to_dto, milestone_to_dto}

  -- The audit path of the response hashes to the root and contains the block.
  abbrev pub Proves : Bytes → Bytes → MerkleAuditPathDto Text → Type 0
  Proves root id dto =
      (path : MerkleAuditPath) × (dto ≡ path_to_dto encode path)
      × (hash_path digest path ≡ some root)
      × (path_contains_block_id id path ≡ some true)

  get_block-eq-ok :
      (db : Database Text) (id : Bytes) {b : Block}
      → get_block iota db id ≡ ok b
      → (raw : Bytes) × (get_block_raw db.blocks id ≡ some raw) × (unpack_block raw ≡ some b)
  unfolding get_block
  get_block-eq-ok db id h =
      let (raw, found, h1) = >>=-eq-ok _ _ h in (raw, ok_or-eq-ok _ _ found, or_panic-eq-ok _ h1)

  respond-Proves :
      (ids : List Bytes) (id root : Bytes) (m : MilestonePayload) (b : Block)
      {resp : CreateProofResponse iota}
      → length ids ≤ u32_mod
      → respond iota ids id root m b ≡ ok resp
      → (resp.milestone ≡ milestone_to_dto m)
        × (resp.block ≡ block_to_dto b)
        × Proves root id resp.audit_path
  unfolding respond
  respond-Proves ids id root m b {resp} s h =
      let (p, made, h1) = >>=-eq-ok _ _ h in
      let (c, hashed, h2) = >>=-eq-ok _ _ h1 in
      let (u, same, h3) = >>=-eq-ok _ _ h2 in
      let (hash', kept) = create_audit_path_ok digest ids id p s (map_err-eq-ok _ _ made) in
      let root' = (bytes_beq_iff c root).0 (not-eq-false _ (fail_if-eq-ok _ _ same)) in
      let e = ok-injective h3 in
      rw (← e) (refl, refl, (p, refl, or_panic-eq-ok _ hashed ∙ (λ i. some (root' i)), kept))

  -- A proof that `create_proof_for_referenced_blocks` returns is for the block with the id of the
  -- request, which a milestone has referenced. It carries the block that is stored with that id and
  -- that milestone, hashes to the inclusion Merkle root of the milestone, and contains the id. The
  -- milestone references at most 2^32 blocks.
  pub create_referenced_Proves :
      (db : Database Text) (t : Text) (resp : CreateProofResponse iota)
      → ((i : ℕ) → length (get_referenced_blocks_in_white_flag_order db.blocks i) ≤ u32_mod)
      → create_proof_for_referenced_blocks iota db t ≡ ok resp
      → (id : Bytes) × (meta : BlockMetadata) × (m : MilestonePayload) × (parse_block_id t
          ≡ some id)
        × (get_block_metadata db.blocks id ≡ some meta)
        × ((meta.referenced_by_milestone_index == 0) ≡ false)
        × (get_milestone_payload db.milestones meta.referenced_by_milestone_index ≡ some m)
        × (resp.milestone ≡ milestone_to_dto m)
        × (raw : Bytes) × (b : Block) × (get_block_raw db.blocks id ≡ some raw)
        × (unpack_block raw ≡ some b)
        × (resp.block ≡ block_to_dto b)
        × Proves m.essence.inclusion_merkle_root id resp.audit_path
  unfolding create_proof_for_referenced_blocks
  create_referenced_Proves db t resp s h =
      >>=-ok_cases (ok_or (parse_block_id t) iota_stardust) _ h λ id parsed h1.
        >>=-ok_cases (ok_or (get_block_metadata db.blocks id) no_results) _ h1 λ meta found h2.
          >>=-ok_cases
            (fail_if (meta.referenced_by_milestone_index == 0) (request (block_not_referenced id)))
            _ h2
            λ u referenced h3. >>=-ok_cases (get_block iota db id) _ h3 λ b block h4.
              >>=-ok_cases
                (ok_or (get_milestone_payload db.milestones meta.referenced_by_milestone_index)
                  no_results)
                _ h4
                λ m milestone h5.
                  >>=-ok_cases
                    (fail_if
                      (is_empty (
                        get_referenced_blocks_in_white_flag_order db.blocks
                          meta.referenced_by_milestone_index))
                      (corrupt_state no_milestone_cone))
                    _ h5
                    λ v nonempty h6.
                      >>=-ok_cases
                        (fail_if
                          (not (
                            contains
                              (get_referenced_blocks_in_white_flag_order db.blocks
                                meta.referenced_by_milestone_index)
                              id))
                          (corrupt_state incomplete_milestone_cone))
                        _ h6
                        λ w there h7.
                          let (raw, stored, unpacked) = get_block-eq-ok db id block in
                          let (sent, same, proves) =
                            respond-Proves _ id _ m b (s meta.referenced_by_milestone_index) h7 in
                          (
                            id,
                            meta,
                            m,
                            ok_or-eq-ok _ _ parsed,
                            ok_or-eq-ok _ _ found,
                            fail_if-eq-ok _ _ referenced,
                            ok_or-eq-ok _ _ milestone,
                            sent,
                            raw,
                            b,
                            stored,
                            unpacked,
                            same,
                            proves,
                          )

  -- A proof that `create_proof_for_applied_blocks` returns is for the block with the id of the
  -- request, which a milestone has referenced and which was included in the ledger. It carries the
  -- block that is stored with that id and that milestone, hashes to the applied Merkle root of the
  -- milestone, and contains the id. The milestone applies at most 2^32 blocks.
  pub create_applied_Proves :
      (db : Database Text) (t : Text) (resp : CreateProofResponse iota)
      → ((i : ℕ) → length (get_applied_blocks_in_white_flag_order db.blocks i) ≤ u32_mod)
      → create_proof_for_applied_blocks iota db t ≡ ok resp
      → (id : Bytes) × (meta : BlockMetadata) × (m : MilestonePayload) × (parse_block_id t
          ≡ some id)
        × (get_block_metadata db.blocks id ≡ some meta)
        × ((meta.referenced_by_milestone_index == 0) ≡ false)
        × (is_included meta.inclusion_state ≡ true)
        × (get_milestone_payload db.milestones meta.referenced_by_milestone_index ≡ some m)
        × (resp.milestone ≡ milestone_to_dto m)
        × (raw : Bytes) × (b : Block) × (get_block_raw db.blocks id ≡ some raw)
        × (unpack_block raw ≡ some b)
        × (resp.block ≡ block_to_dto b)
        × Proves m.essence.applied_merkle_root id resp.audit_path
  unfolding create_proof_for_applied_blocks
  create_applied_Proves db t resp s h =
      >>=-ok_cases (ok_or (parse_block_id t) iota_stardust) _ h λ id parsed h1.
        >>=-ok_cases (ok_or (get_block_metadata db.blocks id) no_results) _ h1 λ meta found h2.
          >>=-ok_cases
            (fail_if (meta.referenced_by_milestone_index == 0) (request (block_not_referenced id)))
            _ h2
            λ u referenced h3.
              >>=-ok_cases
                (fail_if (not (is_included meta.inclusion_state)) (request (block_not_applied id)))
                _ h3
                λ v included h4. >>=-ok_cases (get_block iota db id) _ h4 λ b block h5.
                  >>=-ok_cases
                    (ok_or (get_milestone_payload db.milestones meta.referenced_by_milestone_index)
                      no_results)
                    _ h5
                    λ m milestone h6.
                      >>=-ok_cases
                        (fail_if
                          (not (
                            contains
                              (get_applied_blocks_in_white_flag_order db.blocks
                                meta.referenced_by_milestone_index)
                              id))
                          (request (block_not_applied id)))
                        _ h6
                        λ w there h7.
                          let (raw, stored, unpacked) = get_block-eq-ok db id block in
                          let (sent, same, proves) =
                            respond-Proves _ id _ m b (s meta.referenced_by_milestone_index) h7 in
                          (
                            id,
                            meta,
                            m,
                            ok_or-eq-ok _ _ parsed,
                            ok_or-eq-ok _ _ found,
                            fail_if-eq-ok _ _ referenced,
                            not-eq-false _ (fail_if-eq-ok _ _ included),
                            ok_or-eq-ok _ _ milestone,
                            sent,
                            raw,
                            b,
                            stored,
                            unpacked,
                            same,
                            proves,
                          )
