-- ===== src/Common/Bytes.antt =====
-- Byte strings, and their comparison.
use Prim.Native.Nat.{ℕ}
use mathlib.Core.Path.{◌≡◌, refl}
use mathlib.Core.Logic.{◌↔◌}
use mathlib.Core.Bool.{Bool, true, false, ◌&&◌}
use mathlib.Core.List.{List, [], ◌∷◌, ◌++◌}
use native.Mathlib.Omega.{arith}
use inx_chronicle.Common.Tests.{Eq, ◌==◌}
use inx_chronicle.Common.Lists.{length}

abbrev pub Bytes : Type 0
Bytes = List ℕ

abbrev pub bytes_beq : Bytes → Bytes → Bool
bytes_beq [] [] = true
bytes_beq (x ∷ xs) (y ∷ ys) = (x == y) && bytes_beq xs ys
bytes_beq xs ys = false

pub bytes_beq_iff : (xs ys : Bytes) → (bytes_beq xs ys ≡ true) ↔ (xs ≡ ys)
bytes_beq_iff [] [] = ground arith
bytes_beq_iff [] (y ∷ ys) = ground arith
bytes_beq_iff (x ∷ xs) [] = ground arith
bytes_beq_iff (x ∷ xs) (y ∷ ys) = ground (arith, bytes_beq_iff xs ys)

instance abbrev pub bytes_eq : Eq Bytes
bytes_eq = record { beq = bytes_beq; beq_iff = bytes_beq_iff }

-- Two parts that are put together can be told apart when the first has a known length.
pub append_injective :
    (xs xs' : Bytes) {ys ys' : Bytes}
    → length xs ≡ length xs'
    → xs ++ ys ≡ xs' ++ ys'
    → (xs ≡ xs') × (ys ≡ ys')
append_injective [] [] h e = (refl, e)
append_injective [] (x ∷ xs') h e = absurd (omega arith)
append_injective (x ∷ xs) [] h e = absurd (omega arith)
append_injective (x ∷ xs) (y ∷ xs') {ys} {ys'} h e =
    let (p, q) = append_injective xs xs' {ys = ys} {ys' = ys'} (omega arith) (cc) in (cc, q)
