-- ===== src/Base/Int.antt =====
-- Integers over the native numbers, and decimal conversion of a C `int`.
use Prim.Native.Nat.{ℕ, ◌+◌, ◌-◌, ◌*◌}
use mathlib.Core.Bool.{Bool, true, false, ◌&&◌}
use mathlib.Core.List.{List, [], ◌∷◌}
use mathlib.Core.Option.{Option, none, some}
use everest_ui.Base.Tests.{leb, ◌==◌, if◌then◌else◌, ◌>>=◌}

-- `negsuc n` is -(n + 1).
pub data ℤ : Type 0 where
  pos : ℕ → ℤ
  negsuc : ℕ → ℤ

abbrev pub is_negative : ℤ → Bool
is_negative (pos _) = false
is_negative (negsuc _) = true

abbrev pub is_digit : ℕ → Bool
is_digit c = leb b'0' c && leb c b'9'

-- The value of decimal digits behind those already read.
unfoldable pub digits_from : ℕ → List ℕ → Option ℕ
digits_from acc [] = some acc
digits_from acc (c ∷ cs) = if is_digit c then digits_from (acc * 10 + (c - b'0')) cs else none

unfoldable pub digits : List ℕ → Option ℕ
unfolding digits_from
digits [] = none
digits (c ∷ cs) = digits_from 0 (c ∷ cs)

abbrev pub int_max : ℕ
int_max = 2147483647

abbrev negate : ℕ → ℤ
negate n = if n == 0 then pos 0 else negsuc (n - 1)

-- `toInt(&ok)` in base 10: an optional sign and digits, in the range of a 32-bit `int`.
unfoldable pub to_int : List ℕ → Option ℤ
unfolding digits
to_int [] = none
to_int (c ∷ cs) =
    if c == b'-'
    then (digits cs >>= λ n. if leb n (int_max + 1) then some (negate n) else none)
    else (digits (if c == b'+' then cs else c ∷ cs) >>= λ n.
        if leb n int_max then some (pos n) else none)
