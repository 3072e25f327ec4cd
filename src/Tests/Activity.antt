-- ===== src/Tests/Activity.antt =====
-- The activity of a transaction that mints one NFT, moves another and changes an alias.
use inx_chronicle.Common.{
  not, ◌&&◌, filter_map, ℕ, ◌+◌, ◌%◌, ◌≡◌, refl, none, some, List, [], ◌∷◌, length,
}
use inx_chronicle.Common.Bytes.{Bytes}
use inx_chronicle.Common.Words.{u64_mod}
use inx_chronicle.Model.Address.{implicit, Address}
use inx_chronicle.Model.Output.{Output}
use inx_chronicle.Model.Ledger.{LedgerOutput, LedgerSpent}
use inx_chronicle.Analytics.Update.{spent_outputs}
use inx_chronicle.Analytics.Ledger.OutputActivity.Sets.{id, collect, member, IsDuplicateFree}
use inx_chronicle.Analytics.Ledger.OutputActivity.{
  NftActivityMeasurement, AliasActivityMeasurement, FoundryActivityMeasurement, alias_data, id_of,
  handle_nfts, handle_aliases,
}
use inx_chronicle.Analytics.Ledger.OutputActivity.Balance.{has_alias, handle_aliases-balance}
use inx_chronicle.Analytics.Ledger.OutputActivity.Nfts.{has_nft, handle_nfts-counts}

abbrev digest : Bytes → Bytes
digest x = 1 ∷ x

abbrev owner : Address
owner = Address.ed25519 (7 ∷ [])

abbrev booked_output : ℕ → Output → LedgerOutput
booked_output n output = record {
  output_id = record { transaction_id = n ∷ []; index = 0 };
  block_id = [];
  booked = record { milestone_index = 5; milestone_timestamp = 0 };
  output = output;
  rent_structure = record { num_key_bytes = 1; num_data_bytes = 2 };
}

abbrev nft_with : Bytes → Output
nft_with i = Output.nft record {
  amount = 10;
  native_tokens = [];
  nft_id = i;
  address_unlock_condition = record { address = owner };
  storage_deposit_return_unlock_condition = none;
  timelock_unlock_condition = none;
  expiration_unlock_condition = none;
  features = [];
  immutable_features = [];
}

abbrev alias_at : ℕ → Output
alias_at state_index = Output.alias record {
  amount = 10;
  native_tokens = [];
  alias_id = 4 ∷ [];
  state_index = state_index;
  state_metadata = [];
  foundry_counter = 0;
  state_controller_address_unlock_condition = record { address = owner };
  governor_address_unlock_condition = record { address = owner };
  features = [];
  immutable_features = [];
}

abbrev spent_output : ℕ → Output → LedgerSpent
spent_output n output = record {
  output = booked_output n output;
  spent_metadata = record {
    transaction_id = 9 ∷ [];
    spent = record { milestone_index = 6; milestone_timestamp = 0 };
  };
}

abbrev consumed : List LedgerSpent
consumed = spent_output 1 (nft_with (3 ∷ [])) ∷ spent_output 2 (alias_at 1) ∷ []

abbrev created : List LedgerOutput
created =
    booked_output 9 (nft_with (3 ∷ []))
    ∷ booked_output 9 (nft_with implicit)
    ∷ booked_output 9 (alias_at 2)
    ∷ []

abbrev no_nfts : NftActivityMeasurement
no_nfts = record { created_count = 0; transferred_count = 0; destroyed_count = 0 }

abbrev no_aliases : AliasActivityMeasurement
no_aliases = record {
  created_count = 0;
  governor_changed_count = 0;
  state_changed_count = 0;
  destroyed_count = 0;
}

abbrev no_foundries : FoundryActivityMeasurement
no_foundries = record { created_count = 0; transferred_count = 0; destroyed_count = 0 }

counts_nfts :
    handle_nfts digest no_nfts consumed created
    ≡ record { created_count = 1; transferred_count = 1; destroyed_count = 0 }
unfolding handle_nfts
counts_nfts = refl

counts_aliases :
    handle_aliases digest no_aliases consumed created
    ≡ some record {
      created_count = 0;
      governor_changed_count = 0;
      state_changed_count = 1;
      destroyed_count = 0;
    }
unfolding handle_aliases
counts_aliases = refl

handle_aliases-balance_example :
    (n : AliasActivityMeasurement) × (handle_aliases digest no_aliases consumed created ≡ some n)
    × ((n.created_count
            + no_aliases.destroyed_count
            + length (collect id_of (filter_map (alias_data digest) (spent_outputs consumed))))
          % u64_mod
        ≡ (n.destroyed_count
            + no_aliases.created_count
            + length (collect id_of (filter_map (alias_data digest) created)))
          % u64_mod)
    × ((k : Bytes)
        → (member id_of k (collect id_of (filter_map (alias_data digest) created))
            ≡ has_alias digest k created)
          × (member id_of k
                (collect id_of (filter_map (alias_data digest) (spent_outputs consumed)))
              ≡ has_alias digest k (spent_outputs consumed)))
handle_aliases-balance_example = handle_aliases-balance digest consumed created no_aliases

handle_nfts-counts_example :
    let n = handle_nfts digest no_nfts consumed created in
    let before = spent_outputs consumed in
    (made : List Bytes) × (moved : List Bytes) × (gone : List Bytes) × IsDuplicateFree id made
    × IsDuplicateFree id moved
    × IsDuplicateFree id gone
    × ((k : Bytes) → member id k made ≡ (has_nft digest k created && not (has_nft digest k before)))
    × ((k : Bytes) → member id k moved ≡ (has_nft digest k created && has_nft digest k before))
    × ((k : Bytes) → member id k gone ≡ (has_nft digest k before && not (has_nft digest k created)))
    × (n.created_count ≡ (no_nfts.created_count + length made) % u64_mod)
    × (n.transferred_count ≡ (no_nfts.transferred_count + length moved) % u64_mod)
    × (n.destroyed_count ≡ (no_nfts.destroyed_count + length gone) % u64_mod)
handle_nfts-counts_example = handle_nfts-counts digest no_nfts consumed created
