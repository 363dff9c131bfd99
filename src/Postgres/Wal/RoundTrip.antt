-- ===== src/Postgres/Wal/RoundTrip.antt =====
-- `PGLsnToInt` reads back what `IntToPGLSN` prints.
use mathlib.Core.List.{append-nil, append_assoc}
use native.Mathlib.Nat.{pow-suc, mod-lt}
use hysteron.Base.{
  Text, some, ℕ, zero, suc, ◌+◌, ◌*◌, ◌/◌, ◌%◌, ◌^◌, ◌≤◌, ◌<◌, List, [], ◌∷◌, ◌++◌, ◌≡◌, ◌≢◌, refl,
  ap, ◌∙◌, arith, All,
}
use hysteron.Postgres.Hex.{
  hex_digit, hex_fixed, strip_zeros, hex_upper, digit_value, read_digits, parse_uint32,
}
use hysteron.Postgres.Wal.{split_slash, two_parts, pg_lsn_to_int, int_to_pg_lsn}
use hysteron.Postgres.Wal.Order.{mod_split, pow_pos}

digit_value-hex_digit : (d : ℕ) → d < 16 → digit_value (hex_digit d) ≡ some d
unfolding hex_digit digit_value
digit_value-hex_digit d h = ground arith

le-mul_pow : (a w : ℕ) → a ≤ a * 16 ^ w
le-mul_pow a w = grind (arith, pow_pos w)

-- Reading `w` printed digits behind a value.
read_digits-hex_fixed :
    (w n acc : ℕ)
    → acc * 16 ^ w + n % 16 ^ w < 2 ^ 32
    → read_digits (hex_fixed w n) acc ≡ some (acc * 16 ^ w + n % 16 ^ w)
unfolding read_digits hex_fixed
read_digits-hex_fixed zero n acc h = ground arith
read_digits-hex_fixed (suc w) n acc h =
    let P = 16 ^ w in
    let d = n / P % 16 in
    let small : acc * (P * 16) + (d * P + n % P) < 2 ^ 32 =
      rw (← mod_split n P, ← pow-suc 16 w) h in
    let fits : (acc * 16 + d) * P + n % P < 2 ^ 32 = omega (arith, small) in
    let low : acc * 16 + d < 2 ^ 32 = omega (arith, fits, le-mul_pow (acc * 16 + d) w) in
    rw (pow-suc 16 w, mod_split n P)
      (ground (
        arith,
        low,
        digit_value-hex_digit d (mod-lt _ (omega arith)),
        read_digits-hex_fixed w n (acc * 16 + d) fits,
      ))

read_digits-strip_zeros : (s : Text) → read_digits (strip_zeros s) 0 ≡ read_digits s 0
unfolding read_digits strip_zeros
read_digits-strip_zeros [] = refl
read_digits-strip_zeros (c ∷ s) = ground (arith, read_digits-strip_zeros s)

parse_uint32-strip_zeros : (s : Text) → parse_uint32 (strip_zeros s) ≡ read_digits s 0
unfolding parse_uint32 strip_zeros
parse_uint32-strip_zeros [] = unfold read_digits in refl
parse_uint32-strip_zeros (c ∷ s) =
    ground (arith, parse_uint32-strip_zeros s, read_digits-strip_zeros (c ∷ s))

-- A 32-bit number is read back from its hexadecimal print.
pub parse_uint32-hex_upper : (n : ℕ) → n < 2 ^ 32 → parse_uint32 (hex_upper n) ≡ some n
unfolding hex_upper
parse_uint32-hex_upper n h =
    parse_uint32-strip_zeros (hex_fixed 16 n)
    ∙ read_digits-hex_fixed 16 n 0 (omega arith)
    ∙ ap some (omega arith)

abbrev NoSlash : Text → Type 0
NoSlash = All (λ c. c ≢ b'/')

hex_digit-no_slash : (d : ℕ) → d < 16 → hex_digit d ≢ b'/'
unfolding hex_digit
hex_digit-no_slash d h = ground arith

hex_fixed-NoSlash : (w n : ℕ) → NoSlash (hex_fixed w n)
unfolding hex_fixed
hex_fixed-NoSlash zero n = tt
hex_fixed-NoSlash (suc w) n =
    (hex_digit-no_slash (n / 16 ^ w % 16) (mod-lt _ (omega arith)), hex_fixed-NoSlash w n)

strip_zeros-NoSlash : (s : Text) → NoSlash s → NoSlash (strip_zeros s)
unfolding strip_zeros
strip_zeros-NoSlash [] h = omega arith
strip_zeros-NoSlash (c ∷ s) (hc, h) = ground (arith, strip_zeros-NoSlash s h)

hex_upper-NoSlash : (n : ℕ) → NoSlash (hex_upper n)
unfolding hex_upper
hex_upper-NoSlash n = strip_zeros-NoSlash (hex_fixed 16 n) (hex_fixed-NoSlash 16 n)

split_slash-append :
    (s t cur : Text) → NoSlash s → split_slash (s ++ (b'/' ∷ t)) cur ≡ (cur ++ s) ∷ split_slash t []
unfolding split_slash
split_slash-append [] t cur h = rw append-nil (ground arith)
split_slash-append (c ∷ s) t cur (hc, h) =
    ground (arith, split_slash-append s t (cur ++ c ∷ []) h, append_assoc cur (c ∷ []) s)

split_slash_last : (s cur : Text) → NoSlash s → split_slash s cur ≡ (cur ++ s) ∷ []
unfolding split_slash
split_slash_last [] cur h = rw append-nil
split_slash_last (c ∷ s) cur (hc, h) =
    ground (arith, split_slash_last s (cur ++ c ∷ []) h, append_assoc cur (c ∷ []) s)

two_parts_lem :
    (a b : Text) (hi lo : ℕ)
    → parse_uint32 a ≡ some hi
    → parse_uint32 b ≡ some lo
    → two_parts (a ∷ b ∷ []) ≡ some (hi * 2 ^ 32 + lo)
unfolding two_parts
two_parts_lem a b hi lo ha hb = ground arith

-- Every 64-bit log position is read back from its print.
pub pg_lsn_to_int-int_to_pg_lsn :
    (lsn : ℕ) → lsn < 2 ^ 64 → pg_lsn_to_int (int_to_pg_lsn lsn) ≡ some lsn
unfolding pg_lsn_to_int int_to_pg_lsn
pg_lsn_to_int-int_to_pg_lsn lsn h =
    let hi = hex_upper (lsn / 2 ^ 32) in
    let lo = hex_upper (lsn % 2 ^ 32) in
    ap two_parts (
      split_slash-append hi lo [] (hex_upper-NoSlash (lsn / 2 ^ 32))
      ∙ ap (λ (r : List Text). hi ∷ r) (split_slash_last lo [] (hex_upper-NoSlash (lsn % 2 ^ 32))))
    ∙ two_parts_lem hi lo _ _ (parse_uint32-hex_upper _ (omega arith))
        (parse_uint32-hex_upper _ (omega arith))
    ∙ ap some (omega arith)
