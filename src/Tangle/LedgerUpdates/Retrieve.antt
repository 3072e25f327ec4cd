-- ===== src/Tangle/LedgerUpdates/Retrieve.antt =====
-- The indices of a store lead to the outputs with the ids that are asked for.
use inx_chronicle.Common.{
  ℕ, suc, ◌+◌, ◌≡◌, refl, ◌∙◌, ap, ◌⊎◌, inl, inr, Option, none, some, List, [], ◌∷◌, arith,
  get_elem?, if◌then◌else◌, Bool-cases,
}
use inx_chronicle.Common.Dict.{Dict, lookup, insert, lookup-insert}
use inx_chronicle.Common.Run.{ok}
use inx_chronicle.Model.Address.{OutputId, output_id_beq, output_id_eq}
use inx_chronicle.Model.Ledger.{LedgerOutput, LedgerSpent}
use inx_chronicle.Tangle.LedgerUpdates.{
  index_from, spent_id, created_id, init, at_index, get_created, get_consumed,
}

module _ {A : Type 0} (id : A → OutputId) where
  -- what a list search gives: the last element with the id
  abbrev pub last_with : OutputId → List A → Option A
  last_with i [] = none
  last_with i (x ∷ xs) = elim (last_with i xs) [
    | some y ↦ some y
    | none ↦ if output_id_beq i (id x) then some x else none
  ]

  -- The index from `n` on holds, for an id, the place of the last element with the id, and what it
  -- held before where there is none.
  at_index-index_from :
      (i : OutputId) (xs : List A) (index : Dict OutputId ℕ) (n : ℕ)
      → (lookup i (index_from id index n xs) ≡ lookup i index × last_with i xs ≡ none)
        ⊎ ((k : ℕ) × (y : A) × (lookup i (index_from id index n xs) ≡ some (n + k))
            × (get_elem? xs k ≡ some y)
            × (last_with i xs ≡ some y))
  at_index-index_from i [] index n = inl (refl, refl)
  at_index-index_from i (x ∷ xs) index n =
      elim (at_index-index_from i xs (insert (id x) n index) (n + 1)) [
        | inr (k, y, e, g, l) ↦
            let s : n + 1 + k ≡ n + suc k = omega arith in inr (suc k, y, e ∙ ap some s, g, rw l)
        | inl (e, l) ↦
            let li = lookup-insert i (id x) n index in
            let z : n + 0 ≡ n = omega arith in
            elim (Bool-cases (output_id_beq i (id x))) [
              | inl yes' ↦ inr (0, x, rw (e, li, yes', z), refl, rw (l, yes'))
              | inr no' ↦ inl (rw (e, li, no'), rw (l, no'))
            ]
      ]

  pub at_index-last_with :
      {E : Type 0} (i : OutputId) (xs : List A)
      → at_index {E = E} (lookup i (index_from id [] 0 xs)) xs ≡ ok (last_with i xs)
  at_index-last_with i xs = elim (at_index-index_from i xs [] 0) [
    | inl (e, l) ↦ rw (e, l)
    | inr (k, y, e, g, l) ↦ let z : 0 + k ≡ k = omega arith in rw (e, z, g, l)
  ]

-- A store that is initialised with the outputs of a milestone never indexes out of range: for any
-- id `get_consumed` and `get_created` return the last consumed and the last created output with
-- that id, and nothing where there is none.
pub get_init :
    {E : Type 0} (consumed : List LedgerSpent) (created : List LedgerOutput) (i : OutputId)
    → (get_consumed {E = E} (init consumed created) i ≡ ok (last_with spent_id i consumed))
      × (get_created {E = E} (init consumed created) i ≡ ok (last_with created_id i created))
unfolding init get_consumed get_created
get_init consumed created i =
    (at_index-last_with spent_id i consumed, at_index-last_with created_id i created)
