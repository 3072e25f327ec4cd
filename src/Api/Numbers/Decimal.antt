-- ===== src/Api/Numbers/Decimal.antt =====
-- Numbers that are printed in decimal and read.
use native.Mathlib.Nat.{pow-suc}
use inx_chronicle.Common.{
  subst, ℕ, zero, suc, ◌+◌, ◌-◌, ◌*◌, ◌/◌, ◌%◌, ◌^◌, ◌≤◌, ◌<◌, ◌≡◌, ◌≢◌, ◌∙◌, refl, true, false, [],
  ◌∷◌, arith, ltb, leb, ◌==◌, Bool-cases, inl, inr,
}
use inx_chronicle.Common.Bytes.{Bytes}
use inx_chronicle.Common.Run.{ok}
use inx_chronicle.Api.Numbers.{put_digits, to_string, is_digit, take_digits, parse_uint}

-- no code point of the text is a dot
abbrev pub HasNoDot : Bytes → Type 0
HasNoDot [] = Unit
HasNoDot (c ∷ text) = (c ≢ b'.') × HasNoDot text

put_digits-HasNoDot :
    (more n : ℕ) (text : Bytes) → HasNoDot text → HasNoDot (put_digits more n text)
unfolding put_digits
put_digits-HasNoDot zero n text h = h
put_digits-HasNoDot (suc more) n text h =
    ground (arith, put_digits-HasNoDot more (n / 10) ((b'0' + n % 10) ∷ text))

pub to_string-HasNoDot : (n : ℕ) → HasNoDot (to_string n)
unfolding to_string
to_string-HasNoDot n = put_digits-HasNoDot 20 n [] tt

-- one digit more
take_digits-last :
    (largest n : ℕ) (text : Bytes)
    → n ≤ largest
    → take_digits largest (n / 10) ((b'0' + n % 10) ∷ text) ≡ take_digits largest n text
unfolding take_digits
take_digits-last largest n text h =
    let e : n / 10 * 10 + (b'0' + n % 10 - b'0') ≡ n = omega arith in
    let d : is_digit (b'0' + n % 10) ≡ true = ground arith in
    let l : leb n largest ≡ true = ground arith in rw (e, d, l) refl

tenth_fits : (n m : ℕ) → n < m * 10 → n / 10 < m
tenth_fits n m h = omega arith

take_digits-put_digits :
    (largest more n : ℕ) (text : Bytes)
    → n ≤ largest
    → n < 10 ^ more
    → take_digits largest 0 (put_digits more n text) ≡ take_digits largest n text
unfolding put_digits
take_digits-put_digits largest zero n text h f = let z : n ≡ 0 = omega arith in rw z refl
take_digits-put_digits largest (suc more) n text h f = elim (Bool-cases (ltb n 10)) [
  | inl last ↦
      let z : n / 10 ≡ 0 = ground arith in
      rw last (
        subst (λ k. take_digits largest k ((b'0' + n % 10) ∷ text) ≡ take_digits largest n text) z
          (take_digits-last largest n text h))
  | inr longer ↦ rw longer (
      take_digits-put_digits largest more (n / 10) ((b'0' + n % 10) ∷ text) (omega arith)
        (tenth_fits n (10 ^ more) (rw (pow-suc 10 more) at f))
      ∙ take_digits-last largest n text h)
]

-- the text begins with a digit
StartsWithDigit : Bytes → Type 0
StartsWithDigit [] = ⊥
StartsWithDigit (c ∷ text) = b'0' ≤ c

put_digits-StartsWithDigit :
    (more n : ℕ) (text : Bytes) → StartsWithDigit text → StartsWithDigit (put_digits more n text)
unfolding put_digits StartsWithDigit
put_digits-StartsWithDigit zero n text h = h
put_digits-StartsWithDigit (suc more) n text h = elim (Bool-cases (ltb n 10)) [
  | inl last ↦ rw last (omega arith)
  | inr longer ↦
      rw longer (put_digits-StartsWithDigit more (n / 10) ((b'0' + n % 10) ∷ text) (omega arith))
]

to_string-StartsWithDigit : (n : ℕ) → StartsWithDigit (to_string n)
unfolding to_string put_digits StartsWithDigit
to_string-StartsWithDigit n = elim (Bool-cases (ltb n 10)) [
  | inl last ↦ rw last (omega arith)
  | inr longer ↦
      rw longer (put_digits-StartsWithDigit 19 (n / 10) ((b'0' + n % 10) ∷ []) (omega arith))
]

parse_uint-take_digits :
    (largest : ℕ) (text : Bytes)
    → StartsWithDigit text
    → parse_uint largest text ≡ take_digits largest 0 text
unfolding parse_uint StartsWithDigit
parse_uint-take_digits largest [] h = absurd h
parse_uint-take_digits largest (c ∷ text) h =
    let e : (c == b'+') ≡ false = ground arith in rw e refl

-- A number up to the largest one is read back from its text.
pub parse_uint-to_string :
    (largest n : ℕ) → n ≤ largest → n < 10 ^ 20 → parse_uint largest (to_string n) ≡ ok n
unfolding to_string take_digits
parse_uint-to_string largest n h f =
    parse_uint-take_digits largest (to_string n) (to_string-StartsWithDigit n)
    ∙ take_digits-put_digits largest 20 n [] h f
