-- ===== src/Common/Totals.antt =====
-- The sum of a weight over a list. It does not depend on the order.
use Prim.Native.Nat.{ℕ, ◌+◌, ◌%◌}
use mathlib.Core.Path.{◌≡◌, refl, ap, ◌∙◌}
use mathlib.Core.List.{List, [], ◌∷◌, ◌++◌, Perm, Permᴰ}
use mathlib.Core.Logic.{∥∥₁_elim}
use mathlib.Core.List.{foldl}
use native.Mathlib.Nat.{ℕ_set}
use native.Mathlib.Omega.{arith}
use inx_chronicle.Common.Words.{u64_mod, wrapping_add, wrapping_sub}

module _ {ℓ} {A : Type ℓ} where
  abbrev pub total : (A → ℕ) → List A → ℕ
  total w [] = 0
  total w (x ∷ xs) = w x + total w xs

  pub total-append : (w : A → ℕ) (xs ys : List A) → total w (xs ++ ys) ≡ total w xs + total w ys
  total-append w [] ys = omega arith
  total-append w (x ∷ xs) ys = omega (arith, total-append w xs ys)

  ap_weight : (w : A → ℕ) {x y : A} → x ≡ y → w x ≡ w y
  ap_weight w e = ap w e

  total-Permᴰ : (w : A → ℕ) {xs ys : List A} → Permᴰ xs ys → total w xs ≡ total w ys
  total-Permᴰ w Permᴰ.nil = refl
  total-Permᴰ w (Permᴰ.cons e p) = omega (arith, ap_weight w e, total-Permᴰ w p)
  total-Permᴰ w (Permᴰ.swap e f) = omega (arith, ap_weight w e, ap_weight w f)
  total-Permᴰ w (Permᴰ.trans p q) = total-Permᴰ w p ∙ total-Permᴰ w q

  pub total-perm : (w : A → ℕ) {xs ys : List A} → Perm xs ys → total w xs ≡ total w ys
  total-perm w {xs} {ys} p = ∥∥₁_elim p (ℕ_set _ _) (λ d. total-Permᴰ w d)

  -- A loop that adds the weights to a word of its state.
  pub foldl_add {κ} :
      {S : Type κ} (field : S → ℕ) (step : S → A → S) (w : A → ℕ)
      → ((s : S) (x : A) → field (step s x) ≡ wrapping_add (field s) (w x))
      → (s : S) (xs : List A) (n : ℕ) → field s ≡ n % u64_mod
      → field (foldl step s xs) ≡ (n + total w xs) % u64_mod
  foldl_add field step w law s [] n e = omega arith
  foldl_add field step w law s (x ∷ xs) n e =
      let l = law s x in
      omega (arith, foldl_add field step w law (step s x) xs (n + w x) (omega arith))

  -- A loop that takes the weights away from it.
  pub foldl_sub {κ} :
      {S : Type κ} (field : S → ℕ) (step : S → A → S) (w : A → ℕ)
      → ((s : S) (x : A) → field (step s x) ≡ wrapping_sub (field s) (w x))
      → (s : S) (xs : List A) (n : ℕ) → field s ≡ (n + total w xs) % u64_mod
      → field (foldl step s xs) ≡ n % u64_mod
  foldl_sub field step w law s [] n e = omega arith
  foldl_sub field step w law s (x ∷ xs) n e =
      let l = law s x in foldl_sub field step w law (step s x) xs n (omega arith)
