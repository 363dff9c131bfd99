-- ===== src/Postgres/Hex.antt =====
-- Hexadecimal, as `fmt` prints it with %X and %08X and `strconv.ParseUint(s, 16, 32)` reads it.
use hysteron.Base.{
  Text, Option, some, none, ℕ, zero, suc, ◌+◌, ◌-◌, ◌*◌, ◌/◌, ◌%◌, ◌^◌, ◌&&◌, [], ◌∷◌, ltb, leb,
  ◌==◌, if◌then◌else◌,
}

-- 0 to 9 and A to F.
unfoldable pub hex_digit : ℕ → ℕ
hex_digit d = if ltb d 10 then b'0' + d else b'A' + (d - 10)

-- The last `w` digits of n, the leading one first: %0wX of a number below 16 ^ w.
unfoldable pub hex_fixed : ℕ → ℕ → Text
unfolding hex_digit
hex_fixed zero n = []
hex_fixed (suc w) n = hex_digit (n / 16 ^ w % 16) ∷ hex_fixed w n

unfoldable pub strip_zeros : Text → Text
strip_zeros [] = b'0' ∷ []
strip_zeros (c ∷ s) = if c == b'0' then strip_zeros s else c ∷ s

-- %X of a uint64.
unfoldable pub hex_upper : ℕ → Text
unfolding hex_fixed strip_zeros
hex_upper n = strip_zeros (hex_fixed 16 n)

-- The value of a digit, of either case.
unfoldable pub digit_value : ℕ → Option ℕ
digit_value c =
    if leb b'0' c && leb c b'9'
    then some (c - b'0')
    else if leb b'a' c && leb c b'f'
    then some (c - b'a' + 10)
    else if leb b'A' c && leb c b'F'
    then some (c - b'A' + 10)
    else none

-- Reads on behind the value n, in 32 bits; a value that does not fit is refused.
unfoldable pub read_digits : Text → ℕ → Option ℕ
unfolding digit_value
read_digits [] n = some n
read_digits (c ∷ s) n = elim (digit_value c) [
  | none ↦ none
  | some d ↦
      let rest = read_digits s (n * 16 + d) in if ltb (n * 16 + d) (2 ^ 32) then rest else none
]

-- `strconv.ParseUint(s, 16, 32)`; every error is `none`.
unfoldable pub parse_uint32 : Text → Option ℕ
unfolding read_digits
parse_uint32 [] = none
parse_uint32 (c ∷ s) = read_digits (c ∷ s) 0
