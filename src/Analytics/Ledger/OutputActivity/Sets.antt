-- ===== src/Analytics/Ledger/OutputActivity/Sets.antt =====
-- Sets of values that are equal if their ids are, as the `HashSet`s of
-- src/analytics/ledger/output_activity.rs: lists, with the first of several equal values kept.
use inx_chronicle.Common.{
  ◌+◌, ◌≡◌, refl, sym, ap, ◌∙◌, Bool, true, false, not, ◌&&◌, ◌||◌, Option, none, some, List, [],
  ◌∷◌, arith, length, if◌then◌else◌, Bool-cases, inl, inr,
}
use inx_chronicle.Common.Bytes.{Bytes, bytes_beq, bytes_beq_iff}

abbrev pub id : Bytes → Bytes
id b = b

module _ {A : Type 0} (key : A → Bytes) where
  -- membership of an id
  abbrev pub member : Bytes → List A → Bool
  member k [] = false
  member k (x ∷ xs) = bytes_beq k (key x) || member k xs

  -- `.collect::<HashSet<_>>()`, with the values so far in `seen`
  abbrev pub collect_after : List A → List A → List A
  collect_after seen [] = []
  collect_after seen (x ∷ xs) =
      let rest = collect_after (x ∷ seen) xs in
      let same = collect_after seen xs in if member (key x) seen then same else x ∷ rest

  abbrev pub collect : List A → List A
  collect xs = collect_after [] xs

  abbrev pub difference : List A → List A → List A
  difference [] ys = []
  difference (x ∷ xs) ys = if member (key x) ys then difference xs ys else x ∷ difference xs ys

  abbrev pub intersection : List A → List A → List A
  intersection [] ys = []
  intersection (x ∷ xs) ys =
      if member (key x) ys then x ∷ intersection xs ys else intersection xs ys

  -- `set.get(..)`
  abbrev pub get : Bytes → List A → Option A
  get k [] = none
  get k (x ∷ xs) = if bytes_beq k (key x) then some x else get k xs

  -- no id twice
  abbrev pub IsDuplicateFree : List A → Type 0
  IsDuplicateFree [] = Unit
  IsDuplicateFree (x ∷ xs) = (member (key x) xs ≡ false) × IsDuplicateFree xs

  member-collect_after :
      (k : Bytes) (seen xs : List A)
      → member k seen ≡ true
      → member k (collect_after seen xs) ≡ false
  member-collect_after k seen [] h = refl
  member-collect_after k seen (x ∷ xs) h = ground (
    arith,
    member-collect_after k seen xs h,
    member-collect_after k (x ∷ seen) xs,
    bytes_beq_iff k (key x),
  )

  collect_after-IsDuplicateFree : (seen xs : List A) → IsDuplicateFree (collect_after seen xs)
  collect_after-IsDuplicateFree seen [] = tt
  collect_after-IsDuplicateFree seen (x ∷ xs) = ground (
    arith,
    collect_after-IsDuplicateFree seen xs,
    collect_after-IsDuplicateFree (x ∷ seen) xs,
    member-collect_after (key x) (x ∷ seen) xs,
    bytes_beq_iff (key x) (key x),
  )

  pub collect-IsDuplicateFree : (xs : List A) → IsDuplicateFree (collect xs)
  collect-IsDuplicateFree xs = collect_after-IsDuplicateFree [] xs

  member-collect_fresh :
      (k : Bytes) (seen xs : List A)
      → member k seen ≡ false
      → member k (collect_after seen xs) ≡ member k xs
  member-collect_fresh k seen [] h = refl
  member-collect_fresh k seen (x ∷ xs) h = elim (Bool-cases (bytes_beq k (key x))) [
    | inl same ↦
        let e = (bytes_beq_iff k (key x)).0 same in
        let new : member (key x) seen ≡ false = ap (λ j. member j seen) (sym e) ∙ h in
        rw (new, same) refl
    | inr other ↦
        let t = member-collect_fresh k seen xs h in
        let u = member-collect_fresh k (x ∷ seen) xs (rw other h) in ground (arith, t, u)
  ]

  pub member-collect : (k : Bytes) (xs : List A) → member k (collect xs) ≡ member k xs
  member-collect k xs = member-collect_fresh k [] xs refl

  same_member :
      (k : Bytes) (x : A) (ys : List A)
      → bytes_beq k (key x) ≡ true
      → member (key x) ys ≡ member k ys
  same_member k x ys h = ap (λ j. member j ys) (sym ((bytes_beq_iff k (key x)).0 h))

  pub member-difference :
      (k : Bytes) (xs ys : List A)
      → member k (difference xs ys) ≡ (member k xs && not (member k ys))
  member-difference k [] ys = refl
  member-difference k (x ∷ xs) ys = ground (arith, member-difference k xs ys, same_member k x ys)

  pub member-intersection :
      (k : Bytes) (xs ys : List A) → member k (intersection xs ys) ≡ (member k xs && member k ys)
  member-intersection k [] ys = refl
  member-intersection k (x ∷ xs) ys =
      ground (arith, member-intersection k xs ys, same_member k x ys)

  pub difference-IsDuplicateFree :
      (xs ys : List A) → IsDuplicateFree xs → IsDuplicateFree (difference xs ys)
  difference-IsDuplicateFree [] ys h = tt
  difference-IsDuplicateFree (x ∷ xs) ys (fresh, h) =
      ground (arith, difference-IsDuplicateFree xs ys h, member-difference (key x) xs ys)

  pub intersection-IsDuplicateFree :
      (xs ys : List A) → IsDuplicateFree xs → IsDuplicateFree (intersection xs ys)
  intersection-IsDuplicateFree [] ys h = tt
  intersection-IsDuplicateFree (x ∷ xs) ys (fresh, h) =
      ground (arith, intersection-IsDuplicateFree xs ys h, member-intersection (key x) xs ys)

  pub difference_and_intersection :
      (xs ys : List A) → length (difference xs ys) + length (intersection xs ys) ≡ length xs
  difference_and_intersection [] ys = refl
  difference_and_intersection (x ∷ xs) ys = ground (arith, difference_and_intersection xs ys)

  intersection-cons :
      (x : A) (xs ys : List A)
      → IsDuplicateFree ys
      → member (key x) xs ≡ false
      → length (intersection ys (x ∷ xs))
        ≡ (if member (key x) ys then 1 else 0) + length (intersection ys xs)
  intersection-cons x xs [] s h = omega arith
  intersection-cons x xs (y ∷ ys) (fresh, s) h = elim (Bool-cases (bytes_beq (key y) (key x))) [
    | inl same ↦
        let e = (bytes_beq_iff (key y) (key x)).0 same in
        let back = (bytes_beq_iff (key x) (key y)).1 (sym e) in
        let out : member (key y) xs ≡ false = ap (λ k. member k xs) e ∙ h in
        let gone : member (key x) ys ≡ false = ap (λ k. member k ys) (sym e) ∙ fresh in
        let t = intersection-cons x xs ys s h in ground (arith, t)
    | inr other ↦
        let t = intersection-cons x xs ys s h in
        let back = bytes_beq_iff (key x) (key y) in
        let forth = bytes_beq_iff (key y) (key x) in ground (arith, t)
  ]

  intersection-nil : (ys : List A) → length (intersection ys []) ≡ 0
  intersection-nil [] = refl
  intersection-nil (y ∷ ys) = intersection-nil ys

  pub intersection_comm :
      (xs ys : List A)
      → IsDuplicateFree xs
      → IsDuplicateFree ys
      → length (intersection xs ys) ≡ length (intersection ys xs)
  intersection_comm [] ys sx sy = sym (intersection-nil ys)
  intersection_comm (x ∷ xs) ys (fresh, sx) sy =
      ground (arith, intersection-cons x xs ys sy fresh, intersection_comm xs ys sx sy)

  pub get-member : (k : Bytes) (xs : List A) → member k xs ≡ true → (a : A) × (get k xs ≡ some a)
  get-member k [] h = cc
  get-member k (x ∷ xs) h = elim (Bool-cases (bytes_beq k (key x))) [
    | inl same ↦ (x, rw same)
    | inr other ↦ let (a, e) = get-member k xs (ground arith) in (a, rw other e)
  ]

  -- every value of the list has its id in the other one
  abbrev pub IsIn : List A → List A → Type 0
  IsIn [] ys = Unit
  IsIn (x ∷ xs) ys = (member (key x) ys ≡ true) × IsIn xs ys

  IsIn-cons : (x : A) (xs ys : List A) → IsIn xs ys → IsIn xs (x ∷ ys)
  IsIn-cons x [] ys h = tt
  IsIn-cons x (z ∷ xs) ys (m, h) =
      (ap (λ b. bytes_beq (key z) (key x) || b) m ∙ ground arith, IsIn-cons x xs ys h)

  pub intersection-IsIn :
      (xs ys : List A) → IsIn (intersection xs ys) xs × IsIn (intersection xs ys) ys
  intersection-IsIn [] ys = (tt, tt)
  intersection-IsIn (x ∷ xs) ys =
      let (l, r) = intersection-IsIn xs ys in
      elim (Bool-cases (member (key x) ys)) [
        | inl there ↦
            let self = (bytes_beq_iff (key x) (key x)).1 refl in
            rw there ((rw self, IsIn-cons x (intersection xs ys) xs l), (there, r))
        | inr missing ↦ rw missing (IsIn-cons x (intersection xs ys) xs l, r)
      ]
