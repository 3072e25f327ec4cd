-- ===== src/Common/Words.antt =====
-- Unsigned 64-bit arithmetic as a release build does it: it wraps. `usize` is 64 bits wide.
use Prim.Native.Nat.{ℕ, ◌+◌, ◌-◌, ◌%◌, ◌^◌}
use mathlib.Core.Path.{◌≡◌}
use native.Mathlib.Omega.{arith}

abbrev pub u64_mod : ℕ
u64_mod = 2 ^ 64

-- `a.wrapping_add(b)`, and `a + b` without overflow checks
abbrev pub wrapping_add : ℕ → ℕ → ℕ
wrapping_add a b = (a + b) % u64_mod

-- `a.wrapping_sub(b)`, and `a - b` without overflow checks
abbrev pub wrapping_sub : ℕ → ℕ → ℕ
wrapping_sub a b = (a + u64_mod - b % u64_mod) % u64_mod

-- Adding `c` and then taking `s` away moves the residue of `u` to that of `u'`.
pub wrapping_sub-wrapping_add :
    (u c s u' : ℕ)
    → u' + s ≡ u + c
    → wrapping_sub (wrapping_add (u % u64_mod) (c % u64_mod)) (s % u64_mod) ≡ u' % u64_mod
wrapping_sub-wrapping_add u c s u' h = omega arith

-- The same with the subtraction first.
pub wrapping_add-wrapping_sub :
    (u c s u' : ℕ)
    → u' + s ≡ u + c
    → wrapping_add (wrapping_sub (u % u64_mod) (s % u64_mod)) (c % u64_mod) ≡ u' % u64_mod
wrapping_add-wrapping_sub u c s u' h = omega arith

-- Taking one part of a sum away leaves the rest.
pub wrapping_sub-add : (u x : ℕ) → wrapping_sub ((u + x) % u64_mod) x ≡ u % u64_mod
wrapping_sub-add u x = omega arith

pub wrapping_sub_first : (n x t : ℕ) → wrapping_sub ((n + (x + t)) % u64_mod) x ≡ (n + t) % u64_mod
wrapping_sub_first n x t = omega arith
