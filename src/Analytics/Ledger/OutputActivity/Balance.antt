-- ===== src/Analytics/Ledger/OutputActivity/Balance.antt =====
-- What the activity measurements of aliases and foundries count of a transaction.
use inx_chronicle.Common.{
  Bool, false, ◌||◌, ap, cons_some, filter_map, ◌+◌, ◌%◌, ◌≡◌, refl, ◌∙◌, some, List, [], ◌∷◌,
  arith, length,
}
use inx_chronicle.Common.Bytes.{Bytes}
use inx_chronicle.Common.Words.{u64_mod, wrapping_add}
use inx_chronicle.Model.Ledger.{LedgerOutput, LedgerSpent}
use inx_chronicle.Analytics.Update.{spent_outputs}
use inx_chronicle.Model.Address.{as_bytes}
use inx_chronicle.Model.Output.{Output}
use inx_chronicle.Analytics.Ledger.OutputActivity.Ids.{is_named, is_named-eq}
use inx_chronicle.Analytics.Ledger.OutputActivity.Sets.{
  member, member-collect, id, collect, collect-IsDuplicateFree, difference, intersection,
  difference_and_intersection, intersection_comm, get-member, IsIn, intersection-IsIn,
}
use inx_chronicle.Analytics.Ledger.OutputActivity.{
  AliasActivityMeasurement, FoundryActivityMeasurement, AliasData, alias_data, foundry_id, id_of,
  count_change, count_changes, handle_aliases, handle_foundries,
}

-- After a transaction the created and the transferred foundries together have grown by the number of
-- different foundries among the created outputs, and the destroyed and the transferred foundries
-- together by the number of different foundries among the consumed outputs, modulo 2^64.
pub handle_foundries-balance :
    (consumed : List LedgerSpent) (created : List LedgerOutput) (m : FoundryActivityMeasurement)
    → ((handle_foundries m consumed created).created_count
            + (handle_foundries m consumed created).transferred_count)
          % u64_mod
        ≡ (m.created_count
            + m.transferred_count
            + length (collect id (filter_map foundry_id created)))
          % u64_mod
      × ((handle_foundries m consumed created).destroyed_count
            + (handle_foundries m consumed created).transferred_count)
          % u64_mod
        ≡ (m.destroyed_count
            + m.transferred_count
            + length (collect id (filter_map foundry_id (spent_outputs consumed))))
          % u64_mod
unfolding handle_foundries
handle_foundries-balance consumed created m =
    let ins = collect id (filter_map foundry_id (spent_outputs consumed)) in
    let outs = collect id (filter_map foundry_id created) in
    let a = difference_and_intersection id outs ins in
    let b = difference_and_intersection id ins outs in
    let c =
      intersection_comm id outs ins (collect-IsDuplicateFree id _) (collect-IsDuplicateFree id _) in
    (omega (arith, a), omega (arith, b, c))

count_change-some :
    (m : AliasActivityMeasurement) (input output : AliasData)
    → (n : AliasActivityMeasurement) × (count_change m (some input) (some output) ≡ some n)
      × (n.created_count ≡ m.created_count)
      × (n.destroyed_count ≡ m.destroyed_count)
count_change-some m input output = (_, refl, ground arith, ground arith)

count_changes-some :
    (ins outs : List AliasData) (m : AliasActivityMeasurement) (shared : List AliasData)
    → IsIn id_of shared ins
    → IsIn id_of shared outs
    → (n : AliasActivityMeasurement) × (count_changes ins outs (some m) shared ≡ some n)
      × (n.created_count ≡ m.created_count)
      × (n.destroyed_count ≡ m.destroyed_count)
count_changes-some ins outs m [] i o = (m, refl, refl, refl)
count_changes-some ins outs m (a ∷ shared) (i, is) (o, os) =
    let (input, ei) = get-member id_of a.alias_id ins i in
    let (output, eo) = get-member id_of a.alias_id outs o in
    let (n, e, c, d) = count_change-some m input output in
    let (n', e', c', d') = count_changes-some ins outs n shared is os in
    (n', rw (ei, eo, e) e', c' ∙ c, d' ∙ d)

module _ (digest : Bytes → Bytes) where
  -- the output is the alias with the id
  abbrev pub is_alias : Bytes → LedgerOutput → Bool
  is_alias k o = elim o.output [
    | Output.alias a ↦ is_named k a.alias_id (digest (as_bytes o.output_id))
    | _ ↦ false
  ]

  abbrev pub has_alias : Bytes → List LedgerOutput → Bool
  has_alias k [] = false
  has_alias k (o ∷ os) = is_alias k o || has_alias k os

  member-alias :
      (k : Bytes) (o : LedgerOutput) (rest : List AliasData) (out : Output)
      → o.output ≡ out
      → member id_of k (cons_some (alias_data digest o) rest)
        ≡ (is_alias k o || member id_of k rest)
  member-alias k o rest (Output.treasury t) e = rw e refl
  member-alias k o rest (Output.basic b) e = rw e refl
  member-alias k o rest (Output.nft n) e = rw e refl
  member-alias k o rest (Output.foundry f) e = rw e refl
  member-alias k o rest (Output.alias a) e = rw e (
      ap (λ b. b || member id_of k rest) (is_named-eq k a.alias_id (digest (as_bytes o.output_id))))

  member-alias_data :
      (k : Bytes) (os : List LedgerOutput)
      → member id_of k (filter_map (alias_data digest) os) ≡ has_alias k os
  member-alias_data k [] = refl
  member-alias_data k (o ∷ os) =
      member-alias k o (filter_map (alias_data digest) os) o.output refl
      ∙ ap (λ b. is_alias k o || b) (member-alias_data k os)

module _ (digest : Bytes → Bytes) (consumed : List LedgerSpent) (created : List LedgerOutput) where
  -- The loop over the aliases that are both consumed and created does not panic, and the created
  -- aliases grow as the destroyed ones do, up to the difference of the numbers of different aliases
  -- among the created and the consumed outputs, modulo 2^64. An alias whose id is implicit has the
  -- digest of its output id as its id.
  pub handle_aliases-balance :
      (m : AliasActivityMeasurement)
      → (n : AliasActivityMeasurement) × (handle_aliases digest m consumed created ≡ some n)
        × ((n.created_count
                + m.destroyed_count
                + length (collect id_of (filter_map (alias_data digest) (spent_outputs consumed))))
              % u64_mod
            ≡ (n.destroyed_count
                + m.created_count
                + length (collect id_of (filter_map (alias_data digest) created)))
              % u64_mod)
        × ((k : Bytes)
            → (member id_of k (collect id_of (filter_map (alias_data digest) created))
                ≡ has_alias digest k created)
              × (member id_of k
                    (collect id_of (filter_map (alias_data digest) (spent_outputs consumed)))
                  ≡ has_alias digest k (spent_outputs consumed)))
  unfolding handle_aliases
  handle_aliases-balance m =
      let ins = collect id_of (filter_map (alias_data digest) (spent_outputs consumed)) in
      let outs = collect id_of (filter_map (alias_data digest) created) in
      let a = difference_and_intersection id_of outs ins in
      let b = difference_and_intersection id_of ins outs in
      let c =
        intersection_comm id_of outs ins (collect-IsDuplicateFree id_of _)
          (collect-IsDuplicateFree id_of _) in
      let (within_outs, within_ins) = intersection-IsIn id_of outs ins in
      let (n, e, made, gone) =
        count_changes-some ins outs
          (record m {
            created_count = wrapping_add m.created_count (length (difference id_of outs ins));
            destroyed_count = wrapping_add m.destroyed_count (length (difference id_of ins outs));
          })
          (intersection id_of outs ins) within_ins within_outs in
      (
        n,
        e,
        omega (arith, a, b, c, made, gone),
        λ k. (
          member-collect id_of k _ ∙ member-alias_data digest k created,
          member-collect id_of k _ ∙ member-alias_data digest k (spent_outputs consumed),
        ),
      )
