-- ===== src/Poi/Proof/Sound.antt =====
-- Soundness of an audit path that anybody may have written: against the Merkle root of a list it
-- proves membership, unless two different inputs of the digest are at hand that collide.
use inx_chronicle.Common.{
  ℕ, ◌≡◌, refl, sym, ◌∙◌, ap, subst, ◌≢◌, ◌⊎◌, inl, inr, Bool, true, false, Option, none, some,
  List, [], ◌∷◌, ◌++◌, arith, length, take, drop, take-append-drop, Bool-cases, Option-cases, ◌||◌,
  ◌>>=◌,
}
use inx_chronicle.Common.Bytes.{Bytes, bytes_beq, bytes_beq_iff, append_injective}
use inx_chronicle.Poi.Hasher.{hash_leaf, hash_node}
use inx_chronicle.Poi.Hasher.Root.{IsRoot, empty, leaf, node as branch}
use inx_chronicle.Poi.Proof.{
  MerkleAuditPath, single, pair, Hashable, path, node, value, hash_path, hash_hashable,
  path_contains_block_id, contains_block_id, or_unwrap, contains,
}

-- two inputs that the digest does not tell apart
abbrev pub Collision : (Bytes → Bytes) → Type 0
Collision digest = (x : Bytes) × (y : Bytes) × (x ≢ y) × (digest x ≡ digest y)

-- The hashes and block ids in a path are arrays of 32 bytes.
abbrev mutual
  pub IsSized : MerkleAuditPath → Type 0
  IsSized (single left) = IsSizedHashable left
  IsSized (pair left right) = IsSizedHashable left × IsSizedHashable right

  pub IsSizedHashable : Hashable → Type 0
  IsSizedHashable (path p) = IsSized p
  IsSizedHashable (node h) = length h ≡ 32
  IsSizedHashable (value v) = length v ≡ 32

contains-append :
    (xs ys : List Bytes) (id : Bytes) → contains (xs ++ ys) id ≡ (contains xs id || contains ys id)
unfolding contains
contains-append [] ys id = refl
contains-append (x ∷ xs) ys id = rw (contains-append xs ys id) (ground arith)

-- What is in a part of a slice is in the slice.
contains-part :
    (k : ℕ) (xs : List Bytes) (id : Bytes)
    → (contains (take k xs) id || contains (drop k xs) id) ≡ true
    → contains xs id ≡ true
contains-part k xs id h =
    ap (λ r. contains r id) (sym (take-append-drop k xs))
    ∙ (contains-append (take k xs) (drop k xs) id ∙ h)

or_true : (a : Bool) → (a || true) ≡ true
or_true true = refl
or_true false = refl

or_unwrap-true : (b : Bool) → or_unwrap b none ≡ some true → b ≡ true
unfolding or_unwrap
or_unwrap-true true h = refl
or_unwrap-true false h = cc

-- A pair contains a block on one of its sides.
sides :
    (l r : Option Bool) → (l >>= λ b. or_unwrap b r) ≡ some true → (l ≡ some true) ⊎ (r ≡ some true)
unfolding or_unwrap
sides none r h = cc
sides (some true) r h = inl refl
sides (some false) r h = inr h

module _ (digest : Bytes → Bytes) (sized : (x : Bytes) → length (digest x) ≡ 32) where
  -- equal digests come from equal inputs, or collide
  same_input : (x y : Bytes) → digest x ≡ digest y → (x ≡ y) ⊎ Collision digest
  same_input x y e = elim (Bool-cases (bytes_beq x y)) [
    | inl same ↦ inl ((bytes_beq_iff x y).0 same)
    | inr other ↦ inr (x, y, (λ p. let t = (bytes_beq_iff x y).1 p in cc), e)
  ]

  leaf_sound :
      (v : Bytes) {xs : List Bytes} {h : Bytes} (id : Bytes)
      → IsRoot digest xs h
      → hash_leaf digest v ≡ h
      → bytes_beq v id ≡ true
      → (contains xs id ≡ true) ⊎ Collision digest
  unfolding contains
  leaf_sound v id empty e b = elim (same_input _ _ e) [ inl p ↦ cc | inr c ↦ inr c ]
  leaf_sound v id (leaf x) e b = elim (same_input _ _ e) [
    | inl p ↦ inl (let q : v ≡ x = cc in rw (← q, b))
    | inr c ↦ inr c
  ]
  leaf_sound v id (branch k p l r) e b = elim (same_input _ _ e) [ inl q ↦ cc | inr c ↦ inr c ]

  length-IsRoot : {xs : List Bytes} {h : Bytes} → IsRoot digest xs h → length h ≡ 32
  length-IsRoot empty = sized _
  length-IsRoot (leaf x) = sized _
  length-IsRoot (branch k p l r) = sized _

  -- A node hash that is a root has the roots of two parts below it.
  branch_sound :
      (hl hr : Bytes) {xs : List Bytes} {h : Bytes}
      → length hl ≡ 32
      → IsRoot digest xs h
      → hash_node digest hl hr ≡ h
      → ((k : ℕ) × IsRoot digest (take k xs) hl × IsRoot digest (drop k xs) hr) ⊎ Collision digest
  branch_sound hl hr s empty e = elim (same_input _ _ e) [ inl q ↦ cc | inr c ↦ inr c ]
  branch_sound hl hr s (leaf x) e = elim (same_input _ _ e) [ inl q ↦ cc | inr c ↦ inr c ]
  branch_sound hl hr s (branch {xs = xs} {l = l} {r = r} k p rl rr) e = elim (same_input _ _ e) [
    | inl q ↦
        let t : hl ++ hr ≡ l ++ r = cc in
        let (el, er) = append_injective hl l (s ∙ sym (length-IsRoot rl)) t in
        inl (
          k,
          subst (λ z. IsRoot digest (take k xs) z) (sym el) rl,
          subst (λ z. IsRoot digest (drop k xs) z) (sym er) rr,
        )
    | inr c ↦ inr c
  ]

  mutual
    unfolding hash_path hash_hashable

    length-hash_path :
        (p : MerkleAuditPath) (h : Bytes) → IsSized p → hash_path digest p ≡ some h → length h ≡ 32
    length-hash_path (single (value v)) h s e =
        let q : hash_leaf digest v ≡ h = cc in rw (← q) (sized _)
    length-hash_path (single (path p)) h s e = cc
    length-hash_path (single (node x)) h s e = cc
    length-hash_path (pair left right) h s e = elim (Option-cases (hash_hashable digest left)) [
      | inl n ↦ let f = rw n at e in cc
      | inr (l, el) ↦ elim (Option-cases (hash_hashable digest right)) [
        | inl n ↦ let f = rw (el, n) at e in cc
        | inr (r, er) ↦
            let f = rw (el, er) at e in let q : hash_node digest l r ≡ h = cc in rw (← q) (sized _)
      ]
    ]

    length-hash_hashable :
        (p : Hashable) (h : Bytes)
        → IsSizedHashable p
        → hash_hashable digest p ≡ some h
        → length h ≡ 32
    length-hash_hashable (path p) h s e = length-hash_path p h s e
    length-hash_hashable (node x) h s e = let q : x ≡ h = cc in rw (← q) s
    length-hash_hashable (value v) h s e = let q : hash_leaf digest v ≡ h = cc in rw (← q) (sized _)

  -- what is to be proved of one side of a path
  abbrev IsSound : Hashable → Type 0
  IsSound p =
      (xs : List Bytes) (h id : Bytes)
      → IsRoot digest xs h
      → hash_hashable digest p ≡ some h
      → contains_block_id id p ≡ some true
      → (contains xs id ≡ true) ⊎ Collision digest

  pair_sound :
      (left right : Hashable) (xs : List Bytes) (h id : Bytes)
      → IsSizedHashable left
      → IsSound left
      → IsSound right
      → IsRoot digest xs h
      → hash_path digest (pair left right) ≡ some h
      → path_contains_block_id id (pair left right) ≡ some true
      → (contains xs id ≡ true) ⊎ Collision digest
  unfolding hash_path path_contains_block_id
  pair_sound left right xs h id s sl sr root e c = elim (Option-cases (hash_hashable digest left)) [
    | inl n ↦ let f = rw n at e in cc
    | inr (l, el) ↦ elim (Option-cases (hash_hashable digest right)) [
      | inl n ↦ let f = rw (el, n) at e in cc
      | inr (r, er) ↦
          let f = rw (el, er) at e in
          elim (branch_sound l r (length-hash_hashable left l s el) root (cc)) [
            | inr found ↦ inr found
            | inl (k, rl, rr) ↦
                elim (sides (contains_block_id id left) (contains_block_id id right) c) [
                  | inl cl ↦ elim (sl (take k xs) l id rl el cl) [
                    | inl m ↦ inl (contains-part k xs id (rw m))
                    | inr found ↦ inr found
                  ]
                  | inr cr ↦ elim (sr (drop k xs) r id rr er cr) [
                    | inl m ↦ inl (contains-part k xs id (rw m (or_true (contains (take k xs) id))))
                    | inr found ↦ inr found
                  ]
                ]
          ]
    ]
  ]

  mutual
    unfolding hash_path path_contains_block_id

    path_IsSound :
        (p : MerkleAuditPath) (xs : List Bytes) (h id : Bytes)
        → IsSized p
        → IsRoot digest xs h
        → hash_path digest p ≡ some h
        → path_contains_block_id id p ≡ some true
        → (contains xs id ≡ true) ⊎ Collision digest
    path_IsSound (single (value v)) xs h id s root e c =
        leaf_sound v id root (cc) (or_unwrap-true (bytes_beq v id) c)
    path_IsSound (single (path p)) xs h id s root e c = cc
    path_IsSound (single (node x)) xs h id s root e c = cc
    path_IsSound (pair left right) xs h id s root e c =
        pair_sound left right xs h id s.0 (hashable_IsSound left s.0) (hashable_IsSound right s.1)
          root e c

    hashable_IsSound : (p : Hashable) → IsSizedHashable p → IsSound p
    hashable_IsSound (path p) s xs h id root e c = path_IsSound p xs h id s root e c
    hashable_IsSound (node x) s xs h id root e c = cc
    hashable_IsSound (value v) s xs h id root e c = leaf_sound v id root (cc) (cc)

  -- Of a digest that gives 32 bytes: an audit path of whatever origin, whose hashes and block ids
  -- have 32 bytes, that hashes to the Merkle root of a list and contains a block shows that the
  -- block is in the list, or a collision of the digest is at hand.
  pub audit_path_sound :
      (p : MerkleAuditPath) (xs : List Bytes) (h id : Bytes)
      → IsSized p
      → IsRoot digest xs h
      → hash_path digest p ≡ some h
      → path_contains_block_id id p ≡ some true
      → (contains xs id ≡ true) ⊎ Collision digest
  audit_path_sound p = path_IsSound p
