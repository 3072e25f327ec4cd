-- ===== src/Poi/Dto/RoundTrip.antt =====
-- The JSON form of an audit path is read back as the path, and what is read from any JSON form has
-- hashes and block ids of the right size.
use inx_chronicle.Common.{ℕ, ◌≡◌, inl, inr, Option, some, length, Option-cases}
use inx_chronicle.Common.Bytes.{Bytes}
use inx_chronicle.Poi.Proof.{MerkleAuditPath, single, pair, Hashable, path, node, value}
use inx_chronicle.Poi.Proof.Sound.{IsSized, IsSizedHashable}
use inx_chronicle.Poi.Dto.{
  MerkleAuditPathDto, single_dto, pair_dto, HashableDto, node_dto, path_dto, value_dto, path_to_dto,
  hashable_to_dto, path_from_dto, hashable_from_dto,
}

module _ {Text : Type 0} (encode : Bytes → Text) (decode : ℕ → Text → Option Bytes)
    (decode-encode : (b : Bytes) → decode (length b) (encode b) ≡ some b) where
  decode_sized : (b : Bytes) → length b ≡ 32 → decode 32 (encode b) ≡ some b
  decode_sized b e = rw e at (decode-encode b)

  mutual
    unfolding path_to_dto path_from_dto

    path_round_trip :
        (p : MerkleAuditPath) → IsSized p → path_from_dto decode (path_to_dto encode p) ≡ some p
    path_round_trip (single left) s = rw (hashable_round_trip left s)
    path_round_trip (pair left right) s =
        rw (hashable_round_trip left s.0, hashable_round_trip right s.1)

    hashable_round_trip :
        (h : Hashable)
        → IsSizedHashable h
        → hashable_from_dto decode (hashable_to_dto encode h) ≡ some h
    hashable_round_trip (path p) s = rw (path_round_trip p s)
    hashable_round_trip (node h) s = rw (decode_sized h s)
    hashable_round_trip (value v) s = rw (decode_sized v s)

  -- Where decoding undoes encoding, an audit path whose hashes and block ids have 32 bytes is read
  -- back from its JSON form.
  pub path_from_dto-path_to_dto :
      (p : MerkleAuditPath) → IsSized p → path_from_dto decode (path_to_dto encode p) ≡ some p
  path_from_dto-path_to_dto p = path_round_trip p

module _ {Text : Type 0} (decode : ℕ → Text → Option Bytes)
    (length-decode : (n : ℕ) (t : Text) (b : Bytes) → decode n t ≡ some b → length b ≡ n) where
  mutual
    unfolding path_from_dto

    path_from_dto-IsSized' :
        (d : MerkleAuditPathDto Text) (p : MerkleAuditPath)
        → path_from_dto decode d ≡ some p
        → IsSized p
    path_from_dto-IsSized' (single_dto left) p e =
        elim (Option-cases (hashable_from_dto decode left)) [
          | inl n ↦ let f = rw n at e in cc
          | inr (l, el) ↦
              let f = rw el at e in
              let q : single l ≡ p = cc in rw (← q) (hashable_from_dto-IsSized' left l el)
        ]
    path_from_dto-IsSized' (pair_dto left right) p e =
        elim (Option-cases (hashable_from_dto decode left)) [
          | inl n ↦ let f = rw n at e in cc
          | inr (l, el) ↦ elim (Option-cases (hashable_from_dto decode right)) [
            | inl n ↦ let f = rw (el, n) at e in cc
            | inr (r, er) ↦
                let f = rw (el, er) at e in
                let q : pair l r ≡ p = cc in
                rw (← q)
                  (hashable_from_dto-IsSized' left l el, hashable_from_dto-IsSized' right r er)
          ]
        ]

    hashable_from_dto-IsSized' :
        (d : HashableDto Text) (h : Hashable)
        → hashable_from_dto decode d ≡ some h
        → IsSizedHashable h
    hashable_from_dto-IsSized' (node_dto t) h e = elim (Option-cases (decode 32 t)) [
      | inl n ↦ let f = rw n at e in cc
      | inr (b, eb) ↦
          let f = rw eb at e in let q : node b ≡ h = cc in rw (← q) (length-decode 32 t b eb)
    ]
    hashable_from_dto-IsSized' (value_dto t) h e = elim (Option-cases (decode 32 t)) [
      | inl n ↦ let f = rw n at e in cc
      | inr (b, eb) ↦
          let f = rw eb at e in let q : value b ≡ h = cc in rw (← q) (length-decode 32 t b eb)
    ]
    hashable_from_dto-IsSized' (path_dto d) h e = elim (Option-cases (path_from_dto decode d)) [
      | inl n ↦ let f = rw n at e in cc
      | inr (p, ep) ↦
          let f = rw ep at e in let q : path p ≡ h = cc in rw (← q) (path_from_dto-IsSized' d p ep)
    ]

  -- what is read from a JSON form has hashes and block ids of 32 bytes
  pub path_from_dto-IsSized :
      (d : MerkleAuditPathDto Text) (p : MerkleAuditPath)
      → path_from_dto decode d ≡ some p
      → IsSized p
  path_from_dto-IsSized d = path_from_dto-IsSized' d
