-- ===== src/Poi/Keys/Applicable.antt =====
-- The early `break` of the loop over the sorted ranges loses no key, and a key that cannot be
-- decoded is reported exactly if its range applies.
use inx_chronicle.Common.{
  ℕ, ◌≤◌, ◌≡◌, refl, ◌∙◌, ap, inl, inr, Bool, true, false, ◌&&◌, ◌||◌, Option, none, some, List, [],
  ◌∷◌, ltb, leb, ◌==◌, Eq, arith, Bool-cases, Option-cases,
}
use inx_chronicle.Common.Bytes.{Bytes}
use inx_chronicle.Common.Run.{ok, err}
use inx_chronicle.Poi.Keys.{
  MilestoneKeyRange, decode_public_key, insert_range, sort, has_key, insert_key, collect_keys,
  get_valid_public_keys_for_index,
}

-- a range without an end has `end` equal to `start`
abbrev pub applies : {Text : Type 0} → ℕ → MilestoneKeyRange Text → Bool
applies index r = leb r.start index && (leb index r.end || r.start == r.end)

abbrev pub any {ℓ} : {A : Type ℓ} → (A → Bool) → List A → Bool
any p [] = false
any p (x ∷ xs) = p x || any p xs

module _ {Text : Type 0} where
  any-insert_range :
      (p : MilestoneKeyRange Text → Bool) (r : MilestoneKeyRange Text)
      (xs : List (MilestoneKeyRange Text))
      → any p (insert_range r xs) ≡ (p r || any p xs)
  unfolding insert_range
  any-insert_range p r [] = refl
  any-insert_range p r (x ∷ xs) = ground (arith, any-insert_range p r xs)

  any-sort :
      (p : MilestoneKeyRange Text → Bool) (xs : List (MilestoneKeyRange Text))
      → any p (sort xs) ≡ any p xs
  unfolding sort
  any-sort p [] = refl
  any-sort p (x ∷ xs) = any-insert_range p x (sort xs) ∙ ap (λ b. p x || b) (any-sort p xs)

  abbrev StartsFrom : ℕ → List (MilestoneKeyRange Text) → Type 0
  StartsFrom n [] = Unit
  StartsFrom n (x ∷ xs) = (n ≤ x.start) × StartsFrom n xs

  abbrev IsSorted : List (MilestoneKeyRange Text) → Type 0
  IsSorted [] = Unit
  IsSorted (x ∷ xs) = StartsFrom x.start xs × IsSorted xs

  insert_range-StartsFrom :
      (n : ℕ) (r : MilestoneKeyRange Text) (xs : List (MilestoneKeyRange Text))
      → n ≤ r.start
      → StartsFrom n xs
      → StartsFrom n (insert_range r xs)
  unfolding insert_range
  insert_range-StartsFrom n r [] h s = (h, tt)
  insert_range-StartsFrom n r (x ∷ xs) h s = ground (arith, insert_range-StartsFrom n r xs h s.1)

  StartsFrom-le :
      (m n : ℕ) (xs : List (MilestoneKeyRange Text)) → m ≤ n → StartsFrom n xs → StartsFrom m xs
  StartsFrom-le m n [] h s = tt
  StartsFrom-le m n (x ∷ xs) h s = (omega arith, StartsFrom-le m n xs h s.1)

  insert_range-IsSorted :
      (r : MilestoneKeyRange Text) (xs : List (MilestoneKeyRange Text))
      → IsSorted xs
      → IsSorted (insert_range r xs)
  unfolding insert_range
  insert_range-IsSorted r [] s = (tt, tt)
  insert_range-IsSorted r (x ∷ xs) s = elim (Bool-cases (leb r.start x.start)) [
    | inl first ↦
        let h : r.start ≤ x.start = ground arith in
        rw first ((h, StartsFrom-le r.start x.start xs h s.0), s)
    | inr later ↦
        let h : x.start ≤ r.start = ground arith in
        rw later (insert_range-StartsFrom x.start r xs h s.0, insert_range-IsSorted r xs s.1)
  ]

  sort-IsSorted : (xs : List (MilestoneKeyRange Text)) → IsSorted (sort xs)
  unfolding sort
  sort-IsSorted [] = tt
  sort-IsSorted (x ∷ xs) = insert_range-IsSorted x (sort xs) (sort-IsSorted xs)

  -- No range that starts past the index applies.
  none_applies :
      (p : MilestoneKeyRange Text → Bool) (index n : ℕ) (xs : List (MilestoneKeyRange Text))
      → ltb index n ≡ true
      → StartsFrom n xs
      → any (λ r. applies index r && p r) xs ≡ false
  none_applies p index n [] h s = refl
  none_applies p index n (x ∷ xs) h s = ground (arith, none_applies p index n xs h s.1)

abbrev pub is_undecodable : {Text : Type 0} → (Text → Option Bytes) → MilestoneKeyRange Text → Bool
is_undecodable decode_hex r = elim (decode_hex r.public_key) [ none ↦ true | some raw ↦ false ]

module _ {Text : Type 0} ⦃text : Eq Text⦄ where
  -- the key of the range, in the form in which it is returned, is `k`
  abbrev pub has_text :
      (Text → Option Bytes) → (Bytes → Text) → Text → MilestoneKeyRange Text → Bool
  has_text decode_hex encode_hex k r = elim (decode_hex r.public_key) [
    | none ↦ false
    | some raw ↦ text.beq k (encode_hex raw)
  ]

  has_key-insert_key :
      (k x : Text) (keys : List Text)
      → has_key k (insert_key x keys) ≡ (text.beq k x || has_key k keys)
  unfolding insert_key has_key
  has_key-insert_key k x keys = elim (Bool-cases (text.beq k x)) [
    | inl same ↦ let e = (text.beq_iff k x).0 same in rw e (ground (arith, text.beq_iff x x))
    | inr other ↦ ground arith
  ]

-- a range that applies and whose key cannot be decoded
abbrev pub fails : {Text : Type 0} → (Text → Option Bytes) → ℕ → MilestoneKeyRange Text → Bool
fails decode_hex index r = applies index r && is_undecodable decode_hex r

-- a range that applies and whose key is `k`
abbrev pub gives :
    {Text : Type 0} ⦃text : Eq Text⦄
    → (Text → Option Bytes)
    → (Bytes → Text)
    → ℕ
    → Text
    → MilestoneKeyRange Text
    → Bool
gives decode_hex encode_hex index k r = applies index r && has_text decode_hex encode_hex k r

module _ {Text E : Type 0} ⦃text : Eq Text⦄ (decode_hex : Text → Option Bytes)
    (encode_hex : Bytes → Text) (index : ℕ) where
  collect_keys_good :
      (rs : List (MilestoneKeyRange Text)) (keys : List Text)
      → IsSorted rs
      → any (fails decode_hex index) rs ≡ false
      → (ks : List Text) × (collect_keys {E = E} decode_hex encode_hex index rs keys ≡ ok ks)
        × ((k : Text)
            → has_key k ks ≡ (has_key k keys || any (gives decode_hex encode_hex index k) rs))
  unfolding collect_keys
  collect_keys_good [] keys s h = (keys, refl, λ k. ground arith)
  collect_keys_good (r ∷ rs) keys s h = elim (Bool-cases (ltb index r.start)) [
    | inl past ↦ (
      keys,
      rw past,
      λ k.
          ground (arith, none_applies (has_text decode_hex encode_hex k) index r.start rs past s.0),
    )
    | inr reached ↦ elim (Bool-cases (leb index r.end || r.start == r.end)) [
      | inl within ↦ elim (Option-cases (decode_hex r.public_key)) [
        | inl bad ↦ absurd (ground arith)
        | inr (raw, good) ↦
            let (ks, run, has) =
              collect_keys_good rs (insert_key (encode_hex raw) keys) s.1 (ground arith) in
            (
              ks,
              rw (reached, within, good, run),
              λ k. has k ∙ ground (arith, has_key-insert_key k (encode_hex raw) keys),
            )
      ]
      | inr outside ↦
          let (ks, run, has) = collect_keys_good rs keys s.1 (ground arith) in
          (ks, rw (reached, outside, run), λ k. has k ∙ ground arith)
    ]
  ]

  collect_keys_bad :
      (rs : List (MilestoneKeyRange Text)) (keys : List Text)
      → IsSorted rs
      → any (fails decode_hex index) rs ≡ true
      → collect_keys {E = E} decode_hex encode_hex index rs keys ≡ err decode_public_key
  unfolding collect_keys
  collect_keys_bad [] keys s h = cc
  collect_keys_bad (r ∷ rs) keys s h = elim (Bool-cases (ltb index r.start)) [
    | inl past ↦
        absurd (ground (arith, none_applies (is_undecodable decode_hex) index r.start rs past s.0))
    | inr reached ↦ elim (Bool-cases (leb index r.end || r.start == r.end)) [
      | inl within ↦ elim (Option-cases (decode_hex r.public_key)) [
        | inl bad ↦ rw (reached, within, bad)
        | inr (raw, good) ↦
            rw (reached, within, good)
              (collect_keys_bad rs (insert_key (encode_hex raw) keys) s.1 (ground arith))
      ]
      | inr outside ↦ rw (reached, outside) (collect_keys_bad rs keys s.1 (ground arith))
    ]
  ]

  -- If every range that applies at the index has a key that can be decoded, the keys returned are
  -- exactly those of the ranges that apply: they start at the index or before, and end at it or
  -- after, or have no end.
  pub get_valid_public_keys_exact :
      (ranges : List (MilestoneKeyRange Text))
      → any (fails decode_hex index) ranges ≡ false
      → (ks : List Text) × (get_valid_public_keys_for_index {E = E} decode_hex encode_hex index
            ranges
          ≡ ok ks)
        × ((k : Text) → has_key k ks ≡ any (gives decode_hex encode_hex index k) ranges)
  unfolding get_valid_public_keys_for_index has_key
  get_valid_public_keys_exact ranges h =
      let (ks, run, has) =
        collect_keys_good (sort ranges) [] (sort-IsSorted ranges)
          (any-sort (fails decode_hex index) ranges ∙ h) in
      (ks, run, λ k. has k ∙ any-sort (gives decode_hex encode_hex index k) ranges)

  -- If the key of a range that applies cannot be decoded, the call reports a corrupt state.
  pub get_valid_public_keys_fails :
      (ranges : List (MilestoneKeyRange Text))
      → any (fails decode_hex index) ranges ≡ true
      → get_valid_public_keys_for_index {E = E} decode_hex encode_hex index ranges
        ≡ err decode_public_key
  unfolding get_valid_public_keys_for_index
  get_valid_public_keys_fails ranges h =
      collect_keys_bad (sort ranges) [] (sort-IsSorted ranges)
        (any-sort (fails decode_hex index) ranges ∙ h)
