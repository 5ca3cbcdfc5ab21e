-- ===== src/Prelude/Chars.antt =====
-- What the engine uses of `char` and `str` of the standard library, on texts of scalar values.
use Prim.Native.Nat.{ℕ, zero, suc, ◌+◌, ◌-◌, ◌/◌, ◌%◌}
use mathlib.Core.Bool.{Bool, true, false, ◌&&◌, ◌||◌}
use mathlib.Core.Option.{Option, none, some}
use mathlib.Core.List.{List, [], ◌∷◌, reverse}
use mahi_ai.Prelude.Lists.{is_empty}
use mahi_ai.Prelude.Tests.{Text, nat_beq, leb, ltb, if◌then◌else◌}

-- `char::is_whitespace`: the property White_Space of Unicode.
unfoldable pub is_whitespace : ℕ → Bool
is_whitespace c =
    (leb 0x09 c && leb c 0x0d)
    || nat_beq c 0x20
    || nat_beq c 0x85
    || nat_beq c 0xa0
    || nat_beq c 0x1680
    || (leb 0x2000 c && leb c 0x200a)
    || nat_beq c 0x2028
    || nat_beq c 0x2029
    || nat_beq c 0x202f
    || nat_beq c 0x205f
    || nat_beq c 0x3000

unfoldable pub trim_start : Text → Text
trim_start [] = []
trim_start (c ∷ cs) = let rest = trim_start cs in if is_whitespace c then rest else c ∷ cs

-- `str::trim`
unfoldable pub trim : Text → Text
unfolding trim_start
trim t = reverse (trim_start (reverse (trim_start t)))

-- `char::to_digit(16)`
unfoldable pub to_digit_16 : ℕ → Option ℕ
to_digit_16 c =
    if leb b'0' c && leb c b'9'
    then some (c - b'0')
    else if leb b'a' c && leb c b'f'
    then some (c - b'a' + 10)
    else if leb b'A' c && leb c b'F'
    then some (c - b'A' + 10)
    else none

abbrev pub starts_with : (start t : Text) → Bool
starts_with [] t = true
starts_with (_ ∷ _) [] = false
starts_with (a ∷ s) (b ∷ t) = nat_beq a b && starts_with s t

-- `t.contains(part)`
abbrev pub contains : (part t : Text) → Bool
contains part [] = starts_with part []
contains part (c ∷ t) = let rest = contains part t in starts_with part (c ∷ t) || rest

-- The decimal digits of a number; `suc n` steps are enough for `n`, which each step divides by ten.
abbrev pub digits : (fuel n : ℕ) → Text → Text
digits zero n shown = shown
digits (suc fuel) n shown =
    let rest = digits fuel (n / 10) ((b'0' + n % 10) ∷ shown) in
    if ltb n 10 then (b'0' + n) ∷ shown else rest

-- `n.to_string()`
abbrev pub decimal : ℕ → Text
decimal n = digits (suc n) n []

-- `str::lines`, without the last line where it is empty; a carriage return before the end of a line
-- goes.
abbrev pub without_cr : (reversed : Text) → Text
without_cr [] = []
without_cr (c ∷ cs) = if nat_beq c 0x0d then reverse cs else reverse (c ∷ cs)

unfoldable pub lines_from : (reversed : Text) → Text → List Text
lines_from line [] = if is_empty line then [] else reverse line ∷ []
lines_from line (c ∷ cs) =
    let ended = without_cr line ∷ lines_from [] cs in
    let on = lines_from (c ∷ line) cs in if nat_beq c 0x0a then ended else on
