-- ===== src/Tests/Hex.antt =====
-- Hex text with the prefix 0x, and the output ids that are read from it.
use inx_chronicle.Common.{
  ℕ, ◌+◌, ◌-◌, ◌*◌, ◌/◌, ◌%◌, ◌<◌, ◌≡◌, ◌≢◌, ◌∙◌, refl, ap, [], ◌∷◌, ◌++◌, subst, lt→ltb, length,
  length-append, take, drop, ltb, ◌==◌, if◌then◌else◌, arith, Bool, ◌&&◌, true,
}
use inx_chronicle.Common.Bytes.{Bytes}
use inx_chronicle.Common.Run.{Run, ok, err}
use inx_chronicle.Model.Address.{OutputId, as_bytes, to_hex, u16_to_le_bytes}
use inx_chronicle.Api.Numbers.Decimal.{HasNoDot}
use inx_chronicle.Api.Cursors.RoundTrip.{AreBytes, IsOutputId}

abbrev are_bytes : Bytes → Bool
are_bytes [] = true
are_bytes (b ∷ bytes) = ltb b 256 && are_bytes bytes

pub are_bytes-AreBytes : (bytes : Bytes) → are_bytes bytes ≡ true → AreBytes bytes
are_bytes-AreBytes [] h = tt
are_bytes-AreBytes (b ∷ bytes) h = (ground arith, are_bytes-AreBytes bytes (ground arith))

abbrev digit : ℕ → ℕ
digit n = if ltb n 10 then n + 48 else n + 87

abbrev digits : Bytes → Bytes
digits [] = []
digits (b ∷ bytes) = digit (b / 16) ∷ digit (b % 16) ∷ digits bytes

abbrev pub encode : Bytes → Bytes
encode bytes = b'0' ∷ b'x' ∷ digits bytes

abbrev digit_value : ℕ → ℕ
digit_value c = if ltb c 58 then c - 48 else c - 87

abbrev values : Bytes → Bytes
values [] = []
values (c ∷ []) = []
values (c ∷ d ∷ text) = (digit_value c * 16 + digit_value d) ∷ values text

abbrev from_le_bytes : Bytes → ℕ
from_le_bytes (a ∷ b ∷ []) = a + 256 * b
from_le_bytes _ = 0

-- 32 bytes and an index of two bytes, which is below 128
abbrev from_bytes : Bytes → Run ℕ OutputId
from_bytes bytes =
    if length bytes == 34
    then (if ltb (from_le_bytes (drop 32 bytes)) 128
        then ok record { transaction_id = take 32 bytes; index = from_le_bytes (drop 32 bytes) }
        else err 1)
    else err 0

abbrev pub parse_output_id : Bytes → Run ℕ OutputId
parse_output_id (zero_digit ∷ x ∷ text) = from_bytes (values text)
parse_output_id _ = err 0

digit_value-digit : (n : ℕ) → n < 16 → digit_value (digit n) ≡ n
digit_value-digit n h = ground arith

both_digits :
    (b : ℕ) → b < 256 → digit_value (digit (b / 16)) * 16 + digit_value (digit (b % 16)) ≡ b
both_digits b h =
    let p = digit_value-digit (b / 16) (omega arith) in
    let q = digit_value-digit (b % 16) (omega arith) in rw (p, q) (omega arith)

values-digits : (bytes : Bytes) → AreBytes bytes → values (digits bytes) ≡ bytes
values-digits [] h = refl
values-digits (b ∷ bytes) (small, h) = rw (both_digits b small, values-digits bytes h) refl

AreBytes-append : (xs ys : Bytes) → AreBytes xs → AreBytes ys → AreBytes (xs ++ ys)
AreBytes-append [] ys hx hy = hy
AreBytes-append (x ∷ xs) ys (h, hx) hy = (h, AreBytes-append xs ys hx hy)

take-length : (xs ys : Bytes) → take (length xs) (xs ++ ys) ≡ xs
take-length [] ys = refl
take-length (x ∷ xs) ys = ap (λ r. x ∷ r) (take-length xs ys)

drop-length : (xs ys : Bytes) → drop (length xs) (xs ++ ys) ≡ ys
drop-length [] ys = refl
drop-length (x ∷ xs) ys = drop-length xs ys

digit-NotDot : (n : ℕ) → n < 16 → digit n ≢ b'.'
digit-NotDot n h = ground arith

digits-HasNoDot : (bytes : Bytes) → AreBytes bytes → HasNoDot (digits bytes)
digits-HasNoDot [] h = tt
digits-HasNoDot (b ∷ bytes) (small, h) = (
  digit-NotDot (b / 16) (omega arith),
  (digit-NotDot (b % 16) (omega arith), digits-HasNoDot bytes h),
)

id-AreBytes : (id : OutputId) → IsOutputId id → AreBytes (as_bytes id)
unfolding as_bytes
id-AreBytes id (size, bytes, small) =
    AreBytes-append id.transaction_id (u16_to_le_bytes id.index) bytes
      (omega arith, (omega arith, tt))

pub to_hex-HasNoDot : (id : OutputId) → IsOutputId id → HasNoDot (to_hex encode id)
to_hex-HasNoDot id h =
    (omega arith, (omega arith, digits-HasNoDot (as_bytes id) (id-AreBytes id h)))

from_bytes-as_bytes : (id : OutputId) → IsOutputId id → from_bytes (as_bytes id) ≡ ok id
unfolding as_bytes
from_bytes-as_bytes id (size, bytes, small) =
    let t = id.transaction_id in
    let le = u16_to_le_bytes id.index in
    let n : length (t ++ le) ≡ 34 = length-append t le ∙ omega (arith, size) in
    let first : take 32 (t ++ le) ≡ t = subst (λ k. take k (t ++ le) ≡ t) size (take-length t le) in
    let last : drop 32 (t ++ le) ≡ le =
      subst (λ k. drop k (t ++ le) ≡ le) size (drop-length t le) in
    let index : id.index % 256 + 256 * (id.index / 256 % 256) ≡ id.index = omega arith in
    rw (n, first, last, index, lt→ltb id.index 128 small) refl

pub parse_output_id-to_hex :
    (id : OutputId) → IsOutputId id → parse_output_id (to_hex encode id) ≡ ok id
parse_output_id-to_hex id h =
    ap from_bytes (values-digits (as_bytes id) (id-AreBytes id h)) ∙ from_bytes-as_bytes id h
