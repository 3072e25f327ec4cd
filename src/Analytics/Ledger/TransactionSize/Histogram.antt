-- ===== src/Analytics/Ledger/TransactionSize/Histogram.antt =====
-- The buckets are a histogram of the numbers of inputs and outputs.
use inx_chronicle.Common.{
  ℕ, suc, ◌%◌, ◌≡◌, ◌≢◌, ◌⊎◌, inl, inr, sym, subst, ◌≤◌, ◌<◌, Bool, true, false, ◌&&◌, some, List,
  [], ◌∷◌, arith, ltb, leb, ◌==◌, if◌then◌else◌,
}
use inx_chronicle.Common.Words.{u64_mod, wrapping_add}
use inx_chronicle.Analytics.Ledger.TransactionSize.{TransactionSizeBuckets, add}

abbrev pub count_if : (ℕ → Bool) → List ℕ → ℕ
count_if p [] = 0
count_if p (v ∷ vs) = if p v then suc (count_if p vs) else count_if p vs

-- the numbers of sizes from `lo` on and below `hi`
abbrev pub between : ℕ → ℕ → List ℕ → ℕ
between lo hi = count_if (λ v. leb lo v && ltb v hi)

abbrev pub residue : ℕ → ℕ
residue n = n % u64_mod

-- the histogram of sizes, modulo 2^64
abbrev pub histogram : List ℕ → TransactionSizeBuckets
histogram vs = record {
  single =
      residue (between 1 2 vs)
      ∷ residue (between 2 3 vs)
      ∷ residue (between 3 4 vs)
      ∷ residue (between 4 5 vs)
      ∷ residue (between 5 6 vs)
      ∷ residue (between 6 7 vs)
      ∷ residue (between 7 8 vs)
      ∷ [];
  small = residue (between 8 16 vs);
  medium = residue (between 16 32 vs);
  large = residue (between 32 64 vs);
  huge = residue (between 64 128 vs);
}

single_cases :
    (v : ℕ) → v ≢ 0 → v < 8 → (v ≡ 1) ⊎ (v ≡ 2) ⊎ (v ≡ 3) ⊎ (v ≡ 4) ⊎ (v ≡ 5) ⊎ (v ≡ 6) ⊎ (v ≡ 7)
single_cases v h k = omega arith

size_cases :
    (v : ℕ)
    → v ≢ 0
    → (v < 8) ⊎ ((8 ≤ v) × (v < 16)) ⊎ ((16 ≤ v) × (v < 32)) ⊎ ((32 ≤ v) × (v < 64)) ⊎ (64 ≤ v)
size_cases v h = ground arith

step : (n : ℕ) → wrapping_add (residue n) 1 ≡ residue (suc n)
step n = omega arith

inside : (lo hi v : ℕ) → lo ≤ v → v < hi → (leb lo v && ltb v hi) ≡ true
inside lo hi v h k = ground arith

beyond : (lo hi v : ℕ) → hi ≤ v → (leb lo v && ltb v hi) ≡ false
beyond lo hi v h = ground arith

before : (lo hi v : ℕ) → v < lo → (leb lo v && ltb v hi) ≡ false
before lo hi v h = ground arith

below : (v k : ℕ) → v < k → (leb k v ≡ false) × (ltb v k ≡ true)
below v k h = ground arith

above : (v k : ℕ) → k ≤ v → (leb k v ≡ true) × (ltb v k ≡ false)
above v k h = ground arith

nonzero : (v : ℕ) → 1 ≤ v → (v == 0) ≡ false
nonzero v h = ground arith

-- Each of the seven single buckets is computed.
module _ (vs : List ℕ) where
  histogram_single :
      (add (histogram vs) 1 ≡ some (histogram (1 ∷ vs)))
      × (add (histogram vs) 2 ≡ some (histogram (2 ∷ vs)))
      × (add (histogram vs) 3 ≡ some (histogram (3 ∷ vs)))
      × (add (histogram vs) 4 ≡ some (histogram (4 ∷ vs)))
      × (add (histogram vs) 5 ≡ some (histogram (5 ∷ vs)))
      × (add (histogram vs) 6 ≡ some (histogram (6 ∷ vs)))
      × (add (histogram vs) 7 ≡ some (histogram (7 ∷ vs)))
  unfolding add
  histogram_single = (
    rw (step (between 1 2 vs)),
    rw (step (between 2 3 vs)),
    rw (step (between 3 4 vs)),
    rw (step (between 4 5 vs)),
    rw (step (between 5 6 vs)),
    rw (step (between 6 7 vs)),
    rw (step (between 7 8 vs)),
  )

  histogram_small : (v : ℕ) → 8 ≤ v → v < 16 → add (histogram vs) v ≡ some (histogram (v ∷ vs))
  unfolding add
  histogram_small v h k = rw (
    nonzero v (omega arith),
    beyond 1 2 v (omega arith),
    beyond 2 3 v (omega arith),
    beyond 3 4 v (omega arith),
    beyond 4 5 v (omega arith),
    beyond 5 6 v (omega arith),
    beyond 6 7 v (omega arith),
    beyond 7 8 v (omega arith),
    inside 8 16 v (omega arith) (omega arith),
    before 16 32 v (omega arith),
    before 32 64 v (omega arith),
    (above v 8 (omega arith)).1,
    (below v 16 (omega arith)).1,
    before 64 128 v (omega arith),
    step (between 8 16 vs),
  )

  histogram_medium : (v : ℕ) → 16 ≤ v → v < 32 → add (histogram vs) v ≡ some (histogram (v ∷ vs))
  unfolding add
  histogram_medium v h k = rw (
    nonzero v (omega arith),
    beyond 1 2 v (omega arith),
    beyond 2 3 v (omega arith),
    beyond 3 4 v (omega arith),
    beyond 4 5 v (omega arith),
    beyond 5 6 v (omega arith),
    beyond 6 7 v (omega arith),
    beyond 7 8 v (omega arith),
    beyond 8 16 v (omega arith),
    inside 16 32 v (omega arith) (omega arith),
    before 32 64 v (omega arith),
    (above v 8 (omega arith)).1,
    (above v 16 (omega arith)).1,
    (below v 32 (omega arith)).1,
    before 64 128 v (omega arith),
    step (between 16 32 vs),
  )

  histogram_large : (v : ℕ) → 32 ≤ v → v < 64 → add (histogram vs) v ≡ some (histogram (v ∷ vs))
  unfolding add
  histogram_large v h k = rw (
    nonzero v (omega arith),
    beyond 1 2 v (omega arith),
    beyond 2 3 v (omega arith),
    beyond 3 4 v (omega arith),
    beyond 4 5 v (omega arith),
    beyond 5 6 v (omega arith),
    beyond 6 7 v (omega arith),
    beyond 7 8 v (omega arith),
    beyond 8 16 v (omega arith),
    beyond 16 32 v (omega arith),
    inside 32 64 v (omega arith) (omega arith),
    (above v 8 (omega arith)).1,
    (above v 16 (omega arith)).1,
    (above v 32 (omega arith)).1,
    (below v 64 (omega arith)).1,
    before 64 128 v (omega arith),
    step (between 32 64 vs),
  )

  histogram_huge : (v : ℕ) → 64 ≤ v → v < 128 → add (histogram vs) v ≡ some (histogram (v ∷ vs))
  unfolding add
  histogram_huge v h k = rw (
    nonzero v (omega arith),
    beyond 1 2 v (omega arith),
    beyond 2 3 v (omega arith),
    beyond 3 4 v (omega arith),
    beyond 4 5 v (omega arith),
    beyond 5 6 v (omega arith),
    beyond 6 7 v (omega arith),
    beyond 7 8 v (omega arith),
    beyond 8 16 v (omega arith),
    beyond 16 32 v (omega arith),
    beyond 32 64 v (omega arith),
    (above v 8 (omega arith)).1,
    (above v 16 (omega arith)).1,
    (above v 32 (omega arith)).1,
    (above v 64 (omega arith)).1,
    inside 64 128 v (omega arith) (omega arith),
    step (between 64 128 vs),
  )

  pub histogram-add : (v : ℕ) → v ≢ 0 → v < 128 → add (histogram vs) v ≡ some (histogram (v ∷ vs))
  histogram-add v h k =
      let (s1, s2, s3, s4, s5, s6, s7) = histogram_single in
      let at : (n : ℕ)
          → v ≡ n
          → add (histogram vs) n ≡ some (histogram (n ∷ vs))
          → add (histogram vs) v ≡ some (histogram (v ∷ vs)) =
        λ n e t. subst (λ m. add (histogram vs) m ≡ some (histogram (m ∷ vs))) (sym e) t in
      elim (size_cases v h) [
        | inl c ↦ elim (single_cases v h c) [
          | inl e ↦ at 1 e s1
          | inr (inl e) ↦ at 2 e s2
          | inr (inr (inl e)) ↦ at 3 e s3
          | inr (inr (inr (inl e))) ↦ at 4 e s4
          | inr (inr (inr (inr (inl e)))) ↦ at 5 e s5
          | inr (inr (inr (inr (inr (inl e))))) ↦ at 6 e s6
          | inr (inr (inr (inr (inr (inr e))))) ↦ at 7 e s7
        ]
        | inr (inl (a, b)) ↦ histogram_small v a b
        | inr (inr (inl (a, b))) ↦ histogram_medium v a b
        | inr (inr (inr (inl (a, b)))) ↦ histogram_large v a b
        | inr (inr (inr (inr a))) ↦ histogram_huge v a k
      ]
