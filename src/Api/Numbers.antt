-- ===== src/Api/Numbers.antt =====
-- Numbers and flags as text, as the standard library prints and parses them for
-- src/bin/inx-chronicle/api/explorer/extractors.rs, and a text that is split at its dots. A text is
-- the list of its code points. Twenty digits are enough for every number below 2^64.
pub mod Decimal
pub mod Split
use inx_chronicle.Common.{
  ℕ, zero, suc, ◌+◌, ◌-◌, ◌*◌, ◌/◌, ◌%◌, ◌^◌, Bool, true, false, ◌&&◌, List, [], ◌∷◌, ltb, leb,
  ◌==◌, if◌then◌else◌,
}
use inx_chronicle.Common.Bytes.{Bytes, bytes_beq}
use inx_chronicle.Common.Run.{Run, ok, err}

pub data ParseError : Type 0 where
  int_empty int_invalid_digit int_overflow not_a_bool : ParseError

-- `Display` of an unsigned number: the last digit is put before the text that follows
unfoldable pub put_digits : ℕ → ℕ → Bytes → Bytes
put_digits zero n text = text
put_digits (suc more) n text =
    let longer = put_digits more (n / 10) ((b'0' + n % 10) ∷ text) in
    if ltb n 10 then (b'0' + n % 10) ∷ text else longer

unfoldable pub to_string : ℕ → Bytes
to_string n = put_digits 20 n []

abbrev pub is_digit : ℕ → Bool
is_digit c = leb b'0' c && leb c b'9'

-- the digits of `FromStr` of an unsigned number that has a largest value
unfoldable pub take_digits : ℕ → ℕ → Bytes → Run ParseError ℕ
take_digits largest n [] = ok n
take_digits largest n (c ∷ text) =
    let m = n * 10 + (c - b'0') in
    let rest = take_digits largest m text in
    if is_digit c then (if leb m largest then rest else err int_overflow) else err int_invalid_digit

-- after a sign, at least one digit
abbrev pub take_some : ℕ → Bytes → Run ParseError ℕ
take_some largest [] = err int_invalid_digit
take_some largest (c ∷ text) = take_digits largest 0 (c ∷ text)

unfoldable pub parse_uint : ℕ → Bytes → Run ParseError ℕ
parse_uint largest [] = err int_empty
parse_uint largest (c ∷ text) =
    if c == b'+' then take_some largest text else take_digits largest 0 (c ∷ text)

abbrev pub u32_max : ℕ
u32_max = 2 ^ 32 - 1

-- a `usize` has 64 bits
abbrev pub usize_max : ℕ
usize_max = 2 ^ 64 - 1

abbrev pub true_text : Bytes
true_text = b't' ∷ b'r' ∷ b'u' ∷ b'e' ∷ []

abbrev pub false_text : Bytes
false_text = b'f' ∷ b'a' ∷ b'l' ∷ b's' ∷ b'e' ∷ []

-- `Display` and `FromStr` of a flag
abbrev pub bool_to_string : Bool → Bytes
bool_to_string true = true_text
bool_to_string false = false_text

unfoldable pub parse_bool : Bytes → Run ParseError Bool
parse_bool text =
    if bytes_beq text true_text
    then ok true
    else if bytes_beq text false_text
    then ok false
    else err not_a_bool

-- `s.split('.').collect()`: a text without a dot is one part
abbrev pub put_first : ℕ → List Bytes → List Bytes
put_first c [] = (c ∷ []) ∷ []
put_first c (part ∷ parts) = (c ∷ part) ∷ parts

unfoldable pub split_dots : Bytes → List Bytes
split_dots [] = [] ∷ []
split_dots (c ∷ text) =
    let parts = split_dots text in if c == b'.' then [] ∷ parts else put_first c parts
