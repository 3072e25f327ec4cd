-- ===== src/Tangle/Inx/Read.antt =====
-- Which streams of ledger updates are accepted, and what is read from them.
use inx_chronicle.Common.{
  ℕ, zero, suc, ◌≤◌, ◌≡◌, refl, sym, ap, Option, some, List, [], ◌∷◌, ◌++◌, map, arith, length,
  take, drop,
}
use inx_chronicle.Common.Run.{Run, ok}
use inx_chronicle.Model.Ledger.{LedgerOutput, LedgerSpent}
use inx_chronicle.Tangle.LedgerUpdates.{init}
use inx_chronicle.Tangle.Inx.{
  MarkerMessage, LedgerUpdateMessage, as_consumed, as_created, as_begin, try_collect,
  ledger_updates,
}

take-append-length : {A : Type 0} (xs ys : List A) → take (length xs) (xs ++ ys) ≡ xs
take-append-length [] ys = refl
take-append-length (x ∷ xs) ys = ap (λ r. x ∷ r) (take-append-length xs ys)

drop-append-length : {A : Type 0} (xs ys : List A) → drop (length xs) (xs ++ ys) ≡ ys
drop-append-length [] ys = refl
drop-append-length (x ∷ xs) ys = drop-append-length xs ys

take-all : {A : Type 0} (n : ℕ) (xs : List A) → length xs ≤ n → take n xs ≡ xs
take-all zero [] h = refl
take-all zero (x ∷ xs) h = absurd (omega (arith, h))
take-all (suc n) [] h = refl
take-all (suc n) (x ∷ xs) h = ap (λ r. x ∷ r) (take-all n xs (omega (arith, h)))

drop-all : {A : Type 0} (n : ℕ) (xs : List A) → length xs ≤ n → drop n xs ≡ []
drop-all zero [] h = refl
drop-all zero (x ∷ xs) h = absurd (omega (arith, h))
drop-all (suc n) [] h = refl
drop-all (suc n) (x ∷ xs) h = drop-all n xs (omega (arith, h))

take-nil : {A : Type 0} (n : ℕ) → take {A = A} n [] ≡ []
take-nil zero = refl
take-nil (suc n) = refl

length-map : {A B : Type 0} (f : A → B) (xs : List A) → length (map f xs) ≡ length xs
length-map f [] = refl
length-map f (x ∷ xs) = ap suc (length-map f xs)

as_consumed-consumed : (s : LedgerSpent) → as_consumed (LedgerUpdateMessage.consumed s) ≡ some s
unfolding as_consumed
as_consumed-consumed s = refl

as_created-created : (o : LedgerOutput) → as_created (LedgerUpdateMessage.created o) ≡ some o
unfolding as_created
as_created-created o = refl

module _ {E : Type 0} where
  abbrev good : LedgerUpdateMessage → Run E LedgerUpdateMessage
  good m = ok m

  try_collect-map :
      {A : Type 0} (wrap : A → LedgerUpdateMessage) (pick : LedgerUpdateMessage → Option A)
      → ((a : A) → pick (wrap a) ≡ some a)
      → (xs : List A) → try_collect {E = E} pick (map (λ a. ok (wrap a)) xs) ≡ ok xs
  try_collect-map wrap pick e [] = refl
  try_collect-map wrap pick e (x ∷ xs) = rw (e x, try_collect-map wrap pick e xs)

  -- the items of a stream that are the consumed and the created outputs
  abbrev pub consumed_items : List LedgerSpent → List (Run E LedgerUpdateMessage)
  consumed_items = map (λ s. ok (LedgerUpdateMessage.consumed s))

  abbrev pub created_items : List LedgerOutput → List (Run E LedgerUpdateMessage)
  created_items = map (λ o. ok (LedgerUpdateMessage.created o))

  -- From a stream with a marker that begins it, the consumed and the created outputs that the marker
  -- counts and anything after them, the store of these outputs is read.
  pub ledger_updates_complete :
      (index : ℕ) (cs : List LedgerSpent) (ds : List LedgerOutput)
      (rest : List (Run E LedgerUpdateMessage))
      → ledger_updates (
          ok (
            LedgerUpdateMessage.begin record {
              milestone_index = index;
              consumed_count = length cs;
              created_count = length ds;
            })
          ∷ (consumed_items cs ++ (created_items ds ++ rest)))
        ≡ ok (init cs ds)
  unfolding ledger_updates as_begin
  ledger_updates_complete index cs ds rest = rw (
    sym (length-map (λ s. good (LedgerUpdateMessage.consumed s)) cs),
    take-append-length (consumed_items cs) (created_items ds ++ rest),
    drop-append-length (consumed_items cs) (created_items ds ++ rest),
    sym (length-map (λ o. good (LedgerUpdateMessage.created o)) ds),
    take-append-length (created_items ds) rest,
    try_collect-map LedgerUpdateMessage.consumed as_consumed as_consumed-consumed cs,
    try_collect-map LedgerUpdateMessage.created as_created as_created-created ds,
  )

  -- A stream that breaks off among the consumed outputs, or right after them, is read without an
  -- error, whatever number of created outputs its marker announces: the store has none.
  pub ledger_updates-short :
      (marker : MarkerMessage) (cs : List LedgerSpent)
      → length cs ≤ marker.consumed_count
      → ledger_updates (ok (LedgerUpdateMessage.begin marker) ∷ consumed_items cs) ≡ ok (init cs [])
  unfolding ledger_updates as_begin
  ledger_updates-short marker cs h =
      let l = length-map (λ s. good (LedgerUpdateMessage.consumed s)) cs in
      rw (
        take-all marker.consumed_count (consumed_items cs) (omega (arith, l, h)),
        drop-all marker.consumed_count (consumed_items cs) (omega (arith, l, h)),
        take-nil {A = Run E LedgerUpdateMessage} marker.created_count,
        try_collect-map LedgerUpdateMessage.consumed as_consumed as_consumed-consumed cs,
      )
