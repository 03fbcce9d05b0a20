-- ===== src/Text.antt =====
-- Python's `str` as the list of its code points.
use Prim.Native.Nat.{◌/◌, ◌%◌, ◌^◌}
use Prim.Native.Char.{code}
use digital_services_platfor.Base.{
  ℕ, zero, suc, ◌+◌, ◌-◌, String, Bool, true, false, ◌||◌, ◌&&◌, List, [], ◌∷◌, leb, ltb, ◌==◌,
  if◌then◌else◌, ℕ_discrete,
}
use mathlib.Core.List.{reverse}

abbrev pub Text : Type 0
Text = List ℕ

unfoldable pub Text-discrete : Discrete Text
unfolding ℕ_discrete
Text-discrete = hlevel ℕ_discrete

-- `c.isspace()`: the code points that `str.strip()` removes.
unfoldable pub is_space : ℕ → Bool
is_space c =
    (leb 9 c && leb c 13)
    || (leb 28 c && leb c 32)
    || c == 0x85
    || c == 0xa0
    || c == 0x1680
    || (leb 0x2000 c && leb c 0x200a)
    || c == 0x2028
    || c == 0x2029
    || c == 0x202f
    || c == 0x205f
    || c == 0x3000

unfoldable pub drop_spaces : Text → Text
unfolding is_space
drop_spaces [] = []
drop_spaces (c ∷ s) = let rest = drop_spaces s in if is_space c then rest else c ∷ s

-- `s.strip()`
unfoldable pub strip : Text → Text
unfolding drop_spaces
strip s = reverse (drop_spaces (reverse (drop_spaces s)))

-- `not s`
abbrev pub is_empty : Text → Bool
is_empty [] = true
is_empty (_ ∷ _) = false

-- A text written in the source, as its code points.
abbrev pub text : String → Text
text String.[] = []
text (String.◌∷◌ c s) = code c ∷ text s

unfoldable pub hex_digit : ℕ → ℕ
hex_digit d = if ltb d 10 then b'0' + d else b'a' + (d - 10)

-- The `n` low hexadecimal digits of `v`, before `rest`.
unfoldable pub hex_digits : ℕ → ℕ → Text → Text
unfolding hex_digit
hex_digits zero v rest = rest
hex_digits (suc n) v rest = hex_digits n (v / 16) (hex_digit (v % 16) ∷ rest)

-- `u.hex` of the UUID with the integer `v`.
unfoldable pub uuid_hex : ℕ → Text
uuid_hex v = hex_digits 32 v []

-- `str(u)`: the same digits in groups of 8, 4, 4, 4 and 12.
unfoldable pub uuid_text : ℕ → Text
unfolding hex_digits
uuid_text v = hex_digits 8 (v / 2 ^ 96) (
    b'-'
    ∷ hex_digits 4 (v / 2 ^ 80) (
        b'-'
        ∷ hex_digits 4 (v / 2 ^ 64) (b'-' ∷ hex_digits 4 (v / 2 ^ 48) (b'-' ∷ hex_digits 12 v []))))
