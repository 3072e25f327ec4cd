-- ===== src/Api/Numbers/Split.antt =====
-- Splitting a text that was put together with dots.
use inx_chronicle.Common.{◌≡◌, refl, [], ◌∷◌, ◌++◌, false, arith, ◌==◌}
use inx_chronicle.Common.Bytes.{Bytes}
use inx_chronicle.Api.Numbers.{split_dots}
use inx_chronicle.Api.Numbers.Decimal.{HasNoDot}

pub split_dots-part : (part : Bytes) → HasNoDot part → split_dots part ≡ part ∷ []
unfolding split_dots
split_dots-part [] h = refl
split_dots-part (c ∷ part) h =
    let e : (c == b'.') ≡ false = ground arith in rw (e, split_dots-part part h.1) refl

pub split_dots-append :
    (part rest : Bytes) → HasNoDot part → split_dots (part ++ b'.' ∷ rest) ≡ part ∷ split_dots rest
unfolding split_dots
split_dots-append [] rest h = refl
split_dots-append (c ∷ part) rest h =
    let e : (c == b'.') ≡ false = ground arith in rw (e, split_dots-append part rest h.1) refl
