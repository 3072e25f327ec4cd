-- ===== src/Poi/Proof/Create.antt =====
-- What the audit path of a block hashes to, and which blocks it contains.
use inx_chronicle.Common.{
  ℕ, zero, suc, ◌-◌, ◌≤◌, ◌<◌, ◌≡◌, refl, ap, ◌∙◌, inl, inr, true, false, none, some, List, [], ◌∷◌,
  arith, ltb, length, take, drop, get_elem?, get_elem?-take, get_elem?-drop, Bool-cases, ◌>>=◌,
}
use inx_chronicle.Common.Bytes.{Bytes, bytes_beq, bytes_beq_iff}
use inx_chronicle.Common.Run.{ok, err, ok-injective}
use inx_chronicle.Poi.Hasher.{u32_mod, largest_power_of_two, hash}
use inx_chronicle.Poi.Hasher.Root.{split_at-pivot, parts_shorter, hash-split, hash-IsRoot}
use inx_chronicle.Poi.Proof.{
  MerkleAuditPath, single, pair, Hashable, path, node, value, hash_path, hash_hashable,
  path_contains_block_id, contains_block_id, subtree_with_value, create_audit_path_fuel, or_unwrap,
  create_audit_path_from_index, position, contains, block_not_included, create_audit_path,
}

module _ (digest : Bytes → Bytes) where
  -- `h` hashes to the root of `xs`, and `x` is the one block in it.
  record Leads (xs : List Bytes) (x : Bytes) (h : Hashable) : Type 0 where
    hashed : hash_hashable digest h ≡ hash digest xs
    only : (y : Bytes) → contains_block_id y h ≡ some (bytes_beq x y)

  -- The audit path of slices of two blocks or more, with `fuel`.
  abbrev Creates : ℕ → Type 0
  Creates fuel =
      (xs : List Bytes) (i : ℕ) (x : Bytes)
      → 2 ≤ length xs
      → length xs < fuel
      → length xs ≤ u32_mod
      → get_elem? xs i ≡ some x
      → (p : MerkleAuditPath) × (create_audit_path_fuel digest fuel xs i ≡ some p)
        × Leads xs x (path p)

  subtree_with_value-Leads :
      (fuel : ℕ) (create : Creates fuel) (xs : List Bytes) (i : ℕ) (x : Bytes)
      → length xs < fuel
      → length xs ≤ u32_mod
      → get_elem? xs i ≡ some x
      → (h : Hashable) × (subtree_with_value (create_audit_path_fuel digest fuel) xs i ≡ some h)
        × Leads xs x h
  unfolding subtree_with_value contains_block_id hash_hashable hash
  subtree_with_value-Leads fuel create [] i x f s e = cc
  subtree_with_value-Leads fuel create (y ∷ []) zero x f s e =
      (value y, refl, record { hashed = refl; only = λ z. ground arith })
  subtree_with_value-Leads fuel create (y ∷ []) (suc i) x f s e = cc
  subtree_with_value-Leads fuel create (a ∷ b ∷ rest) i x f s e =
      let (p, made, leads) = create (a ∷ b ∷ rest) i x (omega arith) f s e in
      (path p, rw made, leads)

  module _ (xs : List Bytes) (two : 2 ≤ length xs) (s : length xs ≤ u32_mod) where
    pair_left-Leads :
        (x : Bytes) (h : Hashable) (hr : Bytes)
        → hash digest (drop (largest_power_of_two (length xs)) xs) ≡ some hr
        → Leads (take (largest_power_of_two (length xs)) xs) x h
        → Leads xs x (path (pair h (node hr)))
    unfolding hash_hashable contains_block_id
    pair_left-Leads x h hr root leads = record {
      hashed = rw (hash-split digest xs two s, root, leads.hashed);
      only = λ y.
          rw (leads.only y)
            (elim (bytes_beq x y) as (λ b. (some b >>= λ l. or_unwrap l (some false)) ≡ some b) [
              | true ↦ refl
              | false ↦ refl
            ]);
    }

    pair_right-Leads :
        (x : Bytes) (h : Hashable) (hl : Bytes)
        → hash digest (take (largest_power_of_two (length xs)) xs) ≡ some hl
        → Leads (drop (largest_power_of_two (length xs)) xs) x h
        → Leads xs x (path (pair (node hl) h))
    unfolding hash_hashable contains_block_id
    pair_right-Leads x h hl root leads = record {
      hashed = rw (hash-split digest xs two s, root, leads.hashed);
      only = λ y. rw (leads.only y);
    }

  create_audit_path_fuel-Leads : (fuel : ℕ) → Creates fuel
  unfolding create_audit_path_fuel
  create_audit_path_fuel-Leads zero xs i x two f s e = absurd (omega arith)
  create_audit_path_fuel-Leads (suc fuel) [] i x two f s e = absurd (omega arith)
  create_audit_path_fuel-Leads (suc fuel) (y ∷ []) i x two f s e = absurd (omega arith)
  create_audit_path_fuel-Leads (suc fuel) (a ∷ b ∷ rest) i x two f s e =
      let xs : List Bytes = a ∷ b ∷ rest in
      let k = largest_power_of_two (length xs) in
      let parts = parts_shorter digest xs two s in
      let (hl, rootl, _) = hash-IsRoot digest (take k xs) (omega arith) in
      let (hr, rootr, _) = hash-IsRoot digest (drop k xs) (omega arith) in
      elim (Bool-cases (ltb i k)) [
        | inl below ↦
            let (h, made, leads) =
              subtree_with_value-Leads fuel (create_audit_path_fuel-Leads fuel) (take k xs) i x
                (omega arith) (omega arith) (get_elem?-take k xs i (ground arith) ∙ e) in
            (
              pair h (node hr),
              rw (split_at-pivot digest xs two s, below, made, rootr),
              pair_left-Leads xs two s x h hr rootr leads,
            )
        | inr above ↦
            let (h, made, leads) =
              subtree_with_value-Leads fuel (create_audit_path_fuel-Leads fuel) (drop k xs) (i - k)
                x (omega arith) (omega arith) (get_elem?-drop k xs i (ground arith) ∙ e) in
            (
              pair (node hl) h,
              rw (split_at-pivot digest xs two s, above, made, rootl),
              pair_right-Leads xs two s x h hl rootl leads,
            )
      ]

module _ (digest : Bytes → Bytes) where
  from_index :
      (xs : List Bytes) (i : ℕ) (x : Bytes)
      → length xs ≤ u32_mod
      → get_elem? xs i ≡ some x
      → (p : MerkleAuditPath) × (create_audit_path_from_index digest xs i ≡ some p)
        × (hash_path digest p ≡ hash digest xs)
        × (path_contains_block_id x p ≡ some true)
  unfolding create_audit_path_from_index hash_hashable contains_block_id hash
  from_index [] i x s e = cc
  from_index (y ∷ []) zero x s e =
      (single (value y), refl, refl, let b = (bytes_beq_iff y x).1 (cc) in rw b)
  from_index (y ∷ []) (suc i) x s e = cc
  from_index (a ∷ b ∷ rest) i x s e =
      let xs : List Bytes = a ∷ b ∷ rest in
      let (p, made, leads) =
        create_audit_path_fuel-Leads digest (suc (length xs)) xs i x (omega arith) (omega arith) s
          e in
      (p, made, leads.hashed, leads.only x ∙ ap some ((bytes_beq_iff x x).1 refl))

-- A block of the list has a position, and its position holds it.
position_included :
    (id : Bytes) (xs : List Bytes)
    → contains xs id ≡ true
    → (i : ℕ) × (position id xs ≡ some i) × (get_elem? xs i ≡ some id)
unfolding position contains
position_included id [] h = cc
position_included id (x ∷ xs) h = elim (Bool-cases (bytes_beq x id)) [
  | inl same ↦ (0, rw same, ap some ((bytes_beq_iff x id).0 same))
  | inr other ↦
      let (i, found, held) = position_included id xs (ground arith) in
      (suc i, rw (other, found), held)
]

position_missing : (id : Bytes) (xs : List Bytes) → contains xs id ≡ false → position id xs ≡ none
unfolding position contains
position_missing id [] h = refl
position_missing id (x ∷ xs) h = elim (Bool-cases (bytes_beq x id)) [
  | inl same ↦ ground arith
  | inr other ↦ rw (other, position_missing id xs (ground arith))
]

module _ (digest : Bytes → Bytes) (xs : List Bytes) (id : Bytes) where
  -- For a block of a list of at most 2^32 blocks an audit path is created without a panic. It
  -- hashes to the Merkle hash of the list, and it contains the block.
  pub create_audit_path_included :
      length xs ≤ u32_mod
      → contains xs id ≡ true
      → (p : MerkleAuditPath) × (create_audit_path digest xs id ≡ ok p)
        × (hash_path digest p ≡ hash digest xs)
        × (path_contains_block_id id p ≡ some true)
  unfolding create_audit_path
  create_audit_path_included s h =
      let (i, found, held) = position_included id xs h in
      let (p, made, hashed, kept) = from_index digest xs i id s held in
      (p, rw (found, made), hashed, kept)

  -- For a block that is not in the list `create_audit_path` returns its error.
  pub create_audit_path_missing :
      contains xs id ≡ false → create_audit_path digest xs id ≡ err (block_not_included id)
  unfolding create_audit_path
  create_audit_path_missing h = rw (position_missing id xs h)

  -- In a list of two blocks or more the audit path of a block contains no other block.
  pub create_audit_path_only :
      (p : MerkleAuditPath) (y : Bytes)
      → 2 ≤ length xs
      → length xs ≤ u32_mod
      → create_audit_path digest xs id ≡ ok p
      → path_contains_block_id y p ≡ some (bytes_beq id y)
  unfolding create_audit_path create_audit_path_from_index contains_block_id
  create_audit_path_only p y two s made = elim (Bool-cases (contains xs id)) [
    | inl there ↦
        let (i, found, held) = position_included id xs there in
        let (q, created, leads) =
          create_audit_path_fuel-Leads digest (suc (length xs)) xs i id two (omega arith) s held in
        let e : ok q ≡ ok p = rw (found, created) at made in rw (← ok-injective e) (leads.only y)
    | inr missing ↦ let e = rw (position_missing id xs missing) at made in cc
  ]

  -- A path that was created hashes to the Merkle hash of the list, and contains the block.
  pub create_audit_path_ok :
      (p : MerkleAuditPath)
      → length xs ≤ u32_mod
      → create_audit_path digest xs id ≡ ok p
      → (hash_path digest p ≡ hash digest xs) × (path_contains_block_id id p ≡ some true)
  create_audit_path_ok p s made = elim (Bool-cases (contains xs id)) [
    | inl there ↦
        let (q, created, hashed, kept) = create_audit_path_included s there in
        let e : q ≡ p = ok-injective (rw created at made) in rw (← e) (hashed, kept)
    | inr missing ↦ let f = rw (create_audit_path_missing missing) at made in cc
  ]
