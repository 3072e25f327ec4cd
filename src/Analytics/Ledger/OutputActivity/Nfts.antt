-- ===== src/Analytics/Ledger/OutputActivity/Nfts.antt =====
-- What the activity measurement of NFTs counts of a transaction.
use inx_chronicle.Common.{
  filter_map, ◌+◌, ◌%◌, ◌≡◌, refl, ap, ap₂, ◌∙◌, Bool, false, not, ◌&&◌, ◌||◌, cons_some, List, [],
  ◌∷◌, length,
}
use inx_chronicle.Common.Bytes.{Bytes}
use inx_chronicle.Common.Words.{u64_mod}
use inx_chronicle.Model.Address.{as_bytes}
use inx_chronicle.Model.Output.{Output}
use inx_chronicle.Model.Ledger.{LedgerOutput, LedgerSpent}
use inx_chronicle.Analytics.Update.{spent_outputs}
use inx_chronicle.Analytics.Ledger.OutputActivity.Ids.{is_named, is_named-eq}
use inx_chronicle.Analytics.Ledger.OutputActivity.Sets.{
  id, collect, collect-IsDuplicateFree, difference, intersection, member, IsDuplicateFree,
  member-collect, member-difference, member-intersection, difference-IsDuplicateFree,
  intersection-IsDuplicateFree,
}
use inx_chronicle.Analytics.Ledger.OutputActivity.{NftActivityMeasurement, nft_id, handle_nfts}

module _ (digest : Bytes → Bytes) where
  -- the output is the NFT with the id: either that of its field, or, where this is implicit, the
  -- digest of the output id
  abbrev pub is_nft : Bytes → LedgerOutput → Bool
  is_nft k o = elim o.output [
    | Output.nft n ↦ is_named k n.nft_id (digest (as_bytes o.output_id))
    | _ ↦ false
  ]

  abbrev pub has_nft : Bytes → List LedgerOutput → Bool
  has_nft k [] = false
  has_nft k (o ∷ os) = is_nft k o || has_nft k os

  member-nft :
      (k : Bytes) (o : LedgerOutput) (rest : List Bytes) (out : Output)
      → o.output ≡ out
      → member id k (cons_some (nft_id digest o) rest) ≡ (is_nft k o || member id k rest)
  member-nft k o rest (Output.treasury t) e = rw e refl
  member-nft k o rest (Output.basic b) e = rw e refl
  member-nft k o rest (Output.alias a) e = rw e refl
  member-nft k o rest (Output.foundry f) e = rw e refl
  member-nft k o rest (Output.nft n) e =
      rw e
        (ap (λ b. b || member id k rest) (is_named-eq k n.nft_id (digest (as_bytes o.output_id))))

  member-nft_id :
      (k : Bytes) (os : List LedgerOutput)
      → member id k (filter_map (nft_id digest) os) ≡ has_nft k os
  member-nft_id k [] = refl
  member-nft_id k (o ∷ os) =
      member-nft k o (filter_map (nft_id digest) os) o.output refl
      ∙ ap (λ b. is_nft k o || b) (member-nft_id k os)

  -- For three sets of ids, the NFTs that are created and not consumed, those that are both, and those
  -- that are consumed and not created, the counts of created, transferred and destroyed NFTs grow by
  -- the numbers of their elements, modulo 2^64. An NFT whose id is implicit has the digest of its
  -- output id as its id.
  pub handle_nfts-counts :
      (m : NftActivityMeasurement) (consumed : List LedgerSpent) (created : List LedgerOutput)
      → let n = handle_nfts digest m consumed created in
        let before = spent_outputs consumed in
        (made : List Bytes) × (moved : List Bytes) × (gone : List Bytes) × IsDuplicateFree id made
        × IsDuplicateFree id moved
        × IsDuplicateFree id gone
        × ((k : Bytes) → member id k made ≡ (has_nft k created && not (has_nft k before)))
        × ((k : Bytes) → member id k moved ≡ (has_nft k created && has_nft k before))
        × ((k : Bytes) → member id k gone ≡ (has_nft k before && not (has_nft k created)))
        × (n.created_count ≡ (m.created_count + length made) % u64_mod)
        × (n.transferred_count ≡ (m.transferred_count + length moved) % u64_mod)
        × (n.destroyed_count ≡ (m.destroyed_count + length gone) % u64_mod)
  unfolding handle_nfts
  handle_nfts-counts m consumed created =
      let ins = collect id (filter_map (nft_id digest) (spent_outputs consumed)) in
      let outs = collect id (filter_map (nft_id digest) created) in
      let free_in =
        collect-IsDuplicateFree id (filter_map (nft_id digest) (spent_outputs consumed)) in
      let free_out = collect-IsDuplicateFree id (filter_map (nft_id digest) created) in
      let of_in : (k : Bytes) → member id k ins ≡ has_nft k (spent_outputs consumed) =
        λ k. member-collect id k _ ∙ member-nft_id k (spent_outputs consumed) in
      let of_out : (k : Bytes) → member id k outs ≡ has_nft k created =
        λ k. member-collect id k _ ∙ member-nft_id k created in
      (
        difference id outs ins,
        intersection id outs ins,
        difference id ins outs,
        difference-IsDuplicateFree id outs ins free_out,
        intersection-IsDuplicateFree id outs ins free_out,
        difference-IsDuplicateFree id ins outs free_in,
        λ k. member-difference id k outs ins ∙ ap₂ (λ a b. a && not b) (of_out k) (of_in k),
        λ k. member-intersection id k outs ins ∙ ap₂ (λ a b. a && b) (of_out k) (of_in k),
        λ k. member-difference id k ins outs ∙ ap₂ (λ a b. a && not b) (of_in k) (of_out k),
        refl,
        refl,
        refl,
      )
