-- ===== src/Analytics/Ledger/AddressBalance/Represents.antt =====
-- The balances are the sums of the amounts of the unspent outputs that each address owns.
use inx_chronicle.Common.{
  ℕ, ◌+◌, ◌<◌, ◌≡◌, refl, sym, ◌∙◌, ap, inl, inr, true, false, Option, none, some, arith, ◌==◌,
  ==_iff, if◌then◌else◌, Bool-cases, subst,
}
use inx_chronicle.Common.Words.{u64_mod, wrapping_add, wrapping_sub}
use inx_chronicle.Common.Dict.{
  Dict, lookup, insert, remove, IsDistinct, lookup-insert, insert-IsDistinct, lookup-remove,
  remove-IsDistinct,
}
use inx_chronicle.Model.Address.{Address, address_beq, address_beq_iff, address_eq}
use inx_chronicle.Model.Ledger.{LedgerOutput, amount, owning_address}
use inx_chronicle.Analytics.Ledger.AddressBalance.{or_default, add_balance, sub_balance}

-- what an output adds to the balance of an address
abbrev pub share : Address → Option Address → ℕ → ℕ
share a none n = 0
share a (some b) n = if address_beq a b then n else 0

abbrev pub owned : Address → LedgerOutput → ℕ
owned a o = share a (owning_address o) (amount o)

-- an address with nothing has no entry
abbrev pub entry : ℕ → Option ℕ
entry n = if n == 0 then none else some n

-- A map that holds, for every address, the balance that a function gives.
abbrev pub Holds : Dict Address ℕ → (Address → ℕ) → Type 0
Holds d f = IsDistinct d × ((a : Address) → lookup a d ≡ entry (f a))

or_default-entry : (n : ℕ) → or_default (entry n) ≡ n
or_default-entry n = ground arith

entry_pos : (n : ℕ) → 0 < n → entry n ≡ some n
entry_pos n h = ground arith

nonzero_pos : (n : ℕ) → (n == 0) ≡ false → 0 < n
nonzero_pos n h = ground arith

pub Holds-ext :
    (d : Dict Address ℕ) (f g : Address → ℕ) → ((a : Address) → f a ≡ g a) → Holds d f → Holds d g
Holds-ext d f g e (distinct, h) = (distinct, λ a. h a ∙ ap entry (e a))

same_address : (a : Address) → address_beq a a ≡ true
same_address a = (address_beq_iff a a).1 refl

module _ (d : Dict Address ℕ) (f : Address → ℕ) (h : Holds d f) (b : Address) where
  insert-Holds : (v : ℕ) → 0 < v → Holds (insert b v d) (λ a. if address_beq a b then v else f a)
  insert-Holds v p = (
    insert-IsDistinct b v d h.0,
    λ a. elim (Bool-cases (address_beq a b)) [
      | inl yes' ↦ rw (lookup-insert a b v d, yes') (sym (entry_pos v p))
      | inr no' ↦ rw (lookup-insert a b v d, no') (h.1 a)
    ],
  )

  remove-Holds : Holds (remove b d) (λ a. if address_beq a b then 0 else f a)
  remove-Holds = (
    remove-IsDistinct b d h.0,
    λ a. elim (Bool-cases (address_beq a b)) [
      | inl yes' ↦ rw (lookup-remove a b d h.0, yes')
      | inr no' ↦ rw (lookup-remove a b d h.0, no') (h.1 a)
    ],
  )

-- Changing the value at `b` alone.
at_b :
    (f g : Address → ℕ) (b : Address)
    → ((a : Address) → address_beq a b ≡ false → f a ≡ g a)
    → (a : Address) → (if address_beq a b then g b else f a) ≡ g a
at_b f g b e a = elim (Bool-cases (address_beq a b)) [
  | inl yes' ↦ rw (yes', (address_beq_iff a b).0 yes')
  | inr no' ↦ rw no' (e a no')
]

share_same : (b : Address) (n : ℕ) → share b (some b) n ≡ n
share_same b n = rw (same_address b)

share_other : (a b : Address) (n : ℕ) → address_beq a b ≡ false → share a (some b) n ≡ 0
share_other a b n e = rw e

module _ (d : Dict Address ℕ) (f : Address → ℕ) where
  pub add_balance-Holds :
      (o : Option Address) (n : ℕ)
      → 0 < n
      → ((a : Address) → f a + share a o n < u64_mod)
      → Holds d f
      → Holds (add_balance d o n) (λ a. f a + share a o n)
  add_balance-Holds none n p bound h = Holds-ext d f (λ a. f a + 0) (λ a. omega arith) h
  add_balance-Holds (some b) n p bound h =
      let s = share_same b n in
      let k = bound b in
      let w : wrapping_add (or_default (lookup b d)) n ≡ f b + share b (some b) n =
        ap (λ l. wrapping_add (or_default l) n) (h.1 b)
        ∙ (ap (λ m. wrapping_add m n) (or_default-entry (f b)) ∙ omega (arith, s, k)) in
      let i = insert-Holds d f h b (f b + share b (some b) n) (omega (arith, s, p)) in
      let j =
        Holds-ext _ _ (λ a. f a + share a (some b) n)
          (at_b f (λ a. f a + share a (some b) n) b (λ a e. omega (arith, share_other a b n e)))
          i in
      subst (λ v. Holds (insert b v d) (λ a. f a + share a (some b) n)) (sym w) j

  pub sub_balance-Holds :
      (o : Option Address) (n : ℕ)
      → 0 < n
      → ((a : Address) → f a + share a o n < u64_mod)
      → Holds d (λ a. f a + share a o n)
      → Holds (sub_balance d o n) f
  sub_balance-Holds none n p bound h = Holds-ext d (λ a. f a + 0) f (λ a. omega arith) h
  sub_balance-Holds (some b) n p bound h =
      let s = share_same b n in
      let k = bound b in
      let found : lookup b d ≡ some (f b + n) =
        h.1 b ∙ (ap (λ m. entry (f b + m)) s ∙ entry_pos (f b + n) (omega (arith, p))) in
      let w : wrapping_sub (f b + n) n ≡ f b = omega (arith, s, k) in
      let others = λ (a : Address) (e : address_beq a b ≡ false). share_other a b n e in
      elim (Bool-cases (f b == 0)) [
        | inl yes' ↦
            let z = (==_iff (f b) 0).0 yes' in
            rw (found, w, yes')
              (Holds-ext _ _ f
                (λ a.
                  ap (λ v. if address_beq a b then v else f a + share a (some b) n) (sym z)
                  ∙ at_b (λ a. f a + share a (some b) n) f b (λ c e. omega (arith, others c e)) a)
                (remove-Holds d (λ a. f a + share a (some b) n) h b))
        | inr no' ↦
            rw (found, w, no')
              (Holds-ext _ _ f
                (at_b (λ a. f a + share a (some b) n) f b (λ c e. omega (arith, others c e)))
                (insert-Holds d (λ a. f a + share a (some b) n) h b (f b) (nonzero_pos (f b) no')))
      ]
