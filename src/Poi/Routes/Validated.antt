-- ===== src/Poi/Routes/Validated.antt =====
-- What the `validate_proof` handlers guarantee when they answer that a proof is valid, and the
-- requests on which they panic.
use inx_chronicle.Common.{
  ℕ, ◌≡◌, ◌∙◌, ◌⊎◌, inl, inr, Bool, true, false, not, some, List, length, Option-cases, ap,
}
use inx_chronicle.Common.Bytes.{Bytes, bytes_beq_iff}
use inx_chronicle.Common.Run.{Run, ok, err, panic, ok_or, map_err, >>=-ok_cases}
use inx_chronicle.Db.Collections.{
  Database, ConfigurationUpdateDocument, get_node_configuration_for_ledger_index,
}
use inx_chronicle.Poi.Hasher.Root.{IsRoot}
use inx_chronicle.Poi.Proof.{
  MerkleAuditPath, single, Hashable, hash_path, path_contains_block_id, contains_block_id, contains,
  CreateProofError,
}
use inx_chronicle.Poi.Proof.Sound.{Collision, audit_path_sound}
use inx_chronicle.Poi.Dto.{path_from_dto}
use inx_chronicle.Poi.Dto.RoundTrip.{path_from_dto-IsSized}
use inx_chronicle.Poi.Keys.{get_valid_public_keys_for_index}
use inx_chronicle.Poi.Routes.{
  Iota, ApiError, CreateProofResponse, ValidateProofResponse, fail_if, request,
  malformed_json_block, malformed_json_audit_path, invalid_milestone, no_results, corrupt_state,
  check_path, validate_proof,
}
use inx_chronicle.Poi.Routes.Created.{ok_or-eq-ok, map_err-eq-ok, fail_if-eq-ok, not-eq-false}

module _ (iota : Iota) where
  -- the field of an answer, to compare answers by
  abbrev is_valid_answer : Run ApiError (ValidateProofResponse iota) → Bool
  is_valid_answer (ok r) = r.valid
  is_valid_answer (err e) = false
  is_valid_answer panic = false

  open iota use {
    Text, text_eq, digest, decode, decode_hex, encode_hex, ParsedBlock, ParsedMilestone,
    block_from_dto, milestone_from_dto, is_valid,
  }

  -- the keys that the database has for the milestone, as the handler computes them
  abbrev pub Keys :
      Database Text → ParsedMilestone → ConfigurationUpdateDocument Text → List Text → Type 0
  Keys db m update keys =
      (get_node_configuration_for_ledger_index db.configuration_updates (iota.index m)
        ≡ some update)
      × (get_valid_public_keys_for_index {E = CreateProofError} ⦃text = text_eq⦄ decode_hex
            encode_hex (iota.index m) update.config.milestone_key_ranges
          ≡ ok keys)

  check_path_valid :
      (path : MerkleAuditPath) (id root : Bytes)
      → check_path iota path id root ≡ ok (record { valid = true })
      → (path_contains_block_id id path ≡ some true) × (hash_path digest path ≡ some root)
  unfolding check_path
  check_path_valid path id root h = elim (Option-cases (path_contains_block_id id path)) [
    | inl n ↦ let f = rw n at h in absurd (cc)
    | inr (false, c) ↦ let f = rw c at h in absurd (cc (ap is_valid_answer f))
    | inr (true, c) ↦ elim (Option-cases (hash_path digest path)) [
      | inl n ↦ let f = rw (c, n) at h in absurd (cc)
      | inr (x, e) ↦
          let f = rw (c, e) at h in
          let same = ap is_valid_answer f in (c, e ∙ ap some ((bytes_beq_iff x root).0 same))
    ]
  ]

  -- If a request is answered with `valid: true`, its block is one of the list that has the
  -- milestone's Merkle root, or a collision of the digest is at hand; and the milestone has passed
  -- the validation against the public keys that the database has for its index. The digest gives 32
  -- bytes, and decoding into an array of n bytes gives n bytes.
  pub validate_proof_sound :
      (root : ParsedMilestone → Bytes) (db : Database Text) (req : CreateProofResponse iota)
      (m : ParsedMilestone) (xs : List Bytes)
      → ((x : Bytes) → length (digest x) ≡ 32)
      → ((n : ℕ) (t : Text) (b : Bytes) → decode n t ≡ some b → length b ≡ n)
      → milestone_from_dto req.milestone ≡ some m
      → IsRoot digest xs (root m)
      → validate_proof iota root db req ≡ ok (record { valid = true })
      → ((block : ParsedBlock) × (block_from_dto req.block ≡ some block)
          × ((contains xs (iota.id block) ≡ true) ⊎ Collision digest))
        × ((update : ConfigurationUpdateDocument Text) × (keys : List Text) × Keys db m update keys
            × (is_valid m keys update.config.milestone_public_key_count ≡ true))
  unfolding validate_proof
  validate_proof_sound root db req m xs sized decoded em isroot h =
      >>=-ok_cases (ok_or (block_from_dto req.block) (request malformed_json_block)) _ h
        λ block eb h1.
          let h2 = rw em at h1 in
          >>=-ok_cases
            (ok_or (path_from_dto decode req.audit_path) (request malformed_json_audit_path)) _ h2
            λ path ep h3.
              >>=-ok_cases
                (ok_or
                  (get_node_configuration_for_ledger_index db.configuration_updates (iota.index m))
                  no_results)
                _ h3
                λ update eu h4.
                  >>=-ok_cases
                    (map_err corrupt_state (
                      get_valid_public_keys_for_index ⦃text = text_eq⦄ decode_hex encode_hex
                        (iota.index m) update.config.milestone_key_ranges))
                    _ h4
                    λ keys ek h5.
                      >>=-ok_cases
                        (fail_if (not (is_valid m keys update.config.milestone_public_key_count))
                          (request invalid_milestone))
                        _ h5
                        λ u valid h6.
                          let (contained, hashed) =
                            check_path_valid path (iota.id block) (root m) h6 in
                          let fits =
                            path_from_dto-IsSized decode decoded req.audit_path path
                              (ok_or-eq-ok _ (request malformed_json_audit_path) ep) in
                          (
                            (
                              block,
                              ok_or-eq-ok _ (request malformed_json_block) eb,
                              audit_path_sound digest sized path xs (root m) (iota.id block) fits
                                  isroot hashed contained,
                            ),
                            (
                              update,
                              keys,
                              (ok_or-eq-ok _ no_results eu, map_err-eq-ok corrupt_state _ ek),
                              not-eq-false _ (fail_if-eq-ok _ (request invalid_milestone) valid),
                            ),
                          )

  -- A request whose audit path has no right side, and a left side in which the block is not found,
  -- makes the handler panic, once its block, milestone, path and the milestone's signatures have
  -- been accepted.
  pub validate_proof_panics :
      (root : ParsedMilestone → Bytes) (db : Database Text) (req : CreateProofResponse iota)
      (block : ParsedBlock) (m : ParsedMilestone) (left : Hashable)
      (update : ConfigurationUpdateDocument Text) (keys : List Text)
      → block_from_dto req.block ≡ some block
      → milestone_from_dto req.milestone ≡ some m
      → path_from_dto decode req.audit_path ≡ some (single left)
      → Keys db m update keys
      → is_valid m keys update.config.milestone_public_key_count ≡ true
      → contains_block_id (iota.id block) left ≡ some false
      → validate_proof iota root db req ≡ panic
  unfolding validate_proof check_path path_contains_block_id
  validate_proof_panics root db req block m left update keys eb em ep ek valid missing =
      rw (eb, em, ep, ek.0, ek.1, valid, missing)
