-- ===== src/Db/Outputs/Order.antt =====
-- The order of the writes to the collection of outputs, and writes that run again after a run of
-- them that was cut off.
use mathlib.Core.List.{Permᴰ}
use inx_chronicle.Common.{
  ◌⊎◌, subst, List, [], ◌∷◌, ◌++◌, map, ◌≡◌, ◌∙◌, refl, sym, ap, Option, none, some, Bool-cases,
  inl, inr,
}
use inx_chronicle.Common.Bytes.{Bytes}
use inx_chronicle.Model.Address.{OutputId, output_id_beq, output_id_beq_iff}
use inx_chronicle.Model.Ledger.{LedgerOutput, LedgerSpent}
use inx_chronicle.Tangle.LedgerUpdates.{spent_id, created_id}
use inx_chronicle.Tangle.LedgerUpdates.Retrieve.{last_with}
use inx_chronicle.Db.Outputs.{
  OutputDocument, from_output, from_spent, insert_unspent_outputs, update_spent_outputs,
}
use inx_chronicle.Db.Outputs.Writes.{
  Write, insert_unspent, update_spent, or_else, or_else_assoc, write, write_all, updated_by,
  inserted_by, last_update, first_insert,
}

-- how the writes `created` and `consumed` agree with what is known of each output
abbrev pub Agrees :
    (OutputId → Option LedgerOutput) → (OutputId → Option LedgerSpent) → Write → Type 0
Agrees created consumed (insert_unspent o) = created (created_id o) ≡ some o
Agrees created consumed (update_spent s) = consumed (spent_id s) ≡ some s

abbrev pub AllAgree :
    (OutputId → Option LedgerOutput) → (OutputId → Option LedgerSpent) → List Write → Type 0
AllAgree created consumed [] = Unit
AllAgree created consumed (w ∷ ws) = Agrees created consumed w × AllAgree created consumed ws

-- two results that are nothing or the same may be tried in either order
swap_or_else :
    {A : Type 0} {t : Option A} (x y : Option A)
    → (x ≡ none) ⊎ (x ≡ t)
    → (y ≡ none) ⊎ (y ≡ t)
    → or_else x y ≡ or_else y x
swap_or_else x y (inl hx) (inl hy) = rw (hx, hy) refl
swap_or_else none y (inr hx) (inl hy) = rw hy refl
swap_or_else (some a) y (inr hx) (inl hy) = rw hy refl
swap_or_else x none (inl hx) (inr hy) = rw hx refl
swap_or_else x (some b) (inl hx) (inr hy) = rw hx refl
swap_or_else x y (inr hx) (inr hy) = rw (hx, hy) refl

abbrev pub map_some : {A B : Type 0} → (A → B) → Option A → Option B
map_some f none = none
map_some f (some a) = some (f a)

swap_last :
    {A : Type 0} {t : Option A} (l x y : Option A)
    → (x ≡ none) ⊎ (x ≡ t)
    → (y ≡ none) ⊎ (y ≡ t)
    → or_else (or_else l x) y ≡ or_else (or_else l y) x
swap_last none x y hx hy = swap_or_else x y hx hy
swap_last (some a) x y hx hy = refl

swap_first :
    {A : Type 0} {t : Option A} (x y l : Option A)
    → (x ≡ none) ⊎ (x ≡ t)
    → (y ≡ none) ⊎ (y ≡ t)
    → or_else x (or_else y l) ≡ or_else y (or_else x l)
swap_first x y l hx hy =
    sym (or_else_assoc x y l) ∙ ap (λ o. or_else o l) (swap_or_else x y hx hy) ∙ or_else_assoc y x l

-- no two elements have the same id
abbrev pub HasDistinctIds : {A : Type 0} → (A → OutputId) → List A → Type 0
HasDistinctIds id [] = Unit
HasDistinctIds id (x ∷ xs) = (last_with id (id x) xs ≡ none) × HasDistinctIds id xs

-- the writes of a milestone: an insertion of each created and an update of each consumed output
abbrev pub milestone_writes : List LedgerOutput → List LedgerSpent → List Write
milestone_writes created consumed = map insert_unspent created ++ map update_spent consumed

module _ (digest : Bytes → Bytes) where
  updated_by-Agrees :
      (created : OutputId → Option LedgerOutput) (consumed : OutputId → Option LedgerSpent)
      (id : OutputId) (w : Write)
      → Agrees created consumed w
      → (updated_by digest id w ≡ none)
        ⊎ (updated_by digest id w ≡ map_some (from_spent digest) (consumed id))
  updated_by-Agrees created consumed id (insert_unspent o) h = inl refl
  updated_by-Agrees created consumed id (update_spent s) h =
      elim (Bool-cases (output_id_beq id (spent_id s))) [
        | inl same ↦ inr (rw (same, (output_id_beq_iff id (spent_id s)).0 same, h) refl)
        | inr other ↦ inl (rw other refl)
      ]

  inserted_by-Agrees :
      (created : OutputId → Option LedgerOutput) (consumed : OutputId → Option LedgerSpent)
      (id : OutputId) (w : Write)
      → Agrees created consumed w
      → (inserted_by digest id w ≡ none)
        ⊎ (inserted_by digest id w ≡ map_some (from_output digest) (created id))
  inserted_by-Agrees created consumed id (update_spent s) h = inl refl
  inserted_by-Agrees created consumed id (insert_unspent o) h =
      elim (Bool-cases (output_id_beq id (created_id o))) [
        | inl same ↦ inr (rw (same, (output_id_beq_iff id (created_id o)).0 same, h) refl)
        | inr other ↦ inl (rw other refl)
      ]

  module _ (created : OutputId → Option LedgerOutput)
      (consumed : OutputId → Option LedgerSpent) where
    AllAgree-Permᴰ :
        {ws vs : List Write}
        → Permᴰ ws vs
        → AllAgree created consumed ws
        → AllAgree created consumed vs
    AllAgree-Permᴰ Permᴰ.nil h = tt
    AllAgree-Permᴰ (Permᴰ.cons e p) h =
        (subst (Agrees created consumed) e h.0, AllAgree-Permᴰ p h.1)
    AllAgree-Permᴰ (Permᴰ.swap e f) h =
        (subst (Agrees created consumed) f h.1.0, (subst (Agrees created consumed) e h.0, h.1.1))
    AllAgree-Permᴰ (Permᴰ.trans p q) h = AllAgree-Permᴰ q (AllAgree-Permᴰ p h)

    pub last_update-Permᴰ :
        (id : OutputId) {ws vs : List Write}
        → Permᴰ ws vs
        → AllAgree created consumed ws
        → last_update digest id ws ≡ last_update digest id vs
    last_update-Permᴰ id Permᴰ.nil h = refl
    last_update-Permᴰ id (Permᴰ.cons e p) h = rw (e, last_update-Permᴰ id p h.1) refl
    last_update-Permᴰ id (Permᴰ.swap {a = a} {b = b} {l = l} e f) h =
        rw (sym e, sym f)
          (swap_last (last_update digest id l) (updated_by digest id b) (updated_by digest id a)
            (updated_by-Agrees created consumed id b h.1.0)
            (updated_by-Agrees created consumed id a h.0))
    last_update-Permᴰ id (Permᴰ.trans p q) h =
        last_update-Permᴰ id p h ∙ last_update-Permᴰ id q (AllAgree-Permᴰ p h)

    pub first_insert-Permᴰ :
        (id : OutputId) {ws vs : List Write}
        → Permᴰ ws vs
        → AllAgree created consumed ws
        → first_insert digest id ws ≡ first_insert digest id vs
    first_insert-Permᴰ id Permᴰ.nil h = refl
    first_insert-Permᴰ id (Permᴰ.cons e p) h = rw (e, first_insert-Permᴰ id p h.1) refl
    first_insert-Permᴰ id (Permᴰ.swap {a = a} {b = b} {l = l} e f) h =
        rw (sym e, sym f)
          (swap_first (inserted_by digest id a) (inserted_by digest id b) (first_insert digest id l)
            (inserted_by-Agrees created consumed id a h.0)
            (inserted_by-Agrees created consumed id b h.1.0))
    first_insert-Permᴰ id (Permᴰ.trans p q) h =
        first_insert-Permᴰ id p h ∙ first_insert-Permᴰ id q (AllAgree-Permᴰ p h)

  write_all-append :
      (ws vs : List Write) (docs : List OutputDocument)
      → write_all digest (ws ++ vs) docs ≡ write_all digest vs (write_all digest ws docs)
  unfolding write_all
  write_all-append [] vs docs = refl
  write_all-append (w ∷ ws) vs docs = write_all-append ws vs (write digest w docs)

  write_all-inserts :
      (created : List LedgerOutput) (docs : List OutputDocument)
      → write_all digest (map insert_unspent created) docs
        ≡ insert_unspent_outputs digest created docs
  unfolding write_all write insert_unspent_outputs
  write_all-inserts [] docs = refl
  write_all-inserts (o ∷ created) docs =
      write_all-inserts created (write digest (insert_unspent o) docs)

  write_all-updates :
      (consumed : List LedgerSpent) (docs : List OutputDocument)
      → write_all digest (map update_spent consumed) docs
        ≡ update_spent_outputs digest consumed docs
  unfolding write_all write update_spent_outputs
  write_all-updates [] docs = refl
  write_all-updates (s ∷ consumed) docs =
      write_all-updates consumed (write digest (update_spent s) docs)

  -- The writes of a milestone, one after the other, are an insertion of the created and then an
  -- update of the consumed outputs.
  pub write_all-milestone_writes :
      (created : List LedgerOutput) (consumed : List LedgerSpent) (docs : List OutputDocument)
      → write_all digest (milestone_writes created consumed) docs
        ≡ update_spent_outputs digest consumed (insert_unspent_outputs digest created docs)
  write_all-milestone_writes created consumed docs =
      write_all-append (map insert_unspent created) (map update_spent consumed) docs
      ∙ rw (write_all-inserts created docs)
          (write_all-updates consumed (insert_unspent_outputs digest created docs))
