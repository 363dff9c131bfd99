-- ===== src/Postgres/Wal/Order.antt =====
-- WAL file names are compared as text: their order is that of the segment numbers.
use mathlib.Core.List.{append-nil}
use native.Mathlib.Nat.{div-add-mod, div-div-eq-div-mul, pow-suc, mod-lt, mul_comm}
use hysteron.Base.{
  Text, Bool, true, false, not, some, ℕ, zero, suc, ◌+◌, ◌*◌, ◌/◌, ◌%◌, ◌^◌, ◌≤◌, ◌<◌, [], ◌++◌,
  leb, ltb, ◌==◌, if◌then◌else◌, length, text_lt, ◌≡◌, refl, sym, ap, ◌∙◌, arith,
}
use hysteron.Postgres.Hex.{hex_digit, hex_fixed}
use hysteron.Postgres.Wal.{
  xlog_pos_to_wal_file_name_no_timeline, wal_file_name_no_timeline, is_wal_file_name,
  is_required_wal_available, wal_seg_size, is_wal_char, all_wal_chars, drop_timeline, is_empty,
}

pub pow_pos : (w : ℕ) → 0 < 16 ^ w
pow_pos zero = omega arith
pow_pos (suc w) = omega (arith, pow_pos w, pow-suc 16 w)

-- The leading digit of the last `w + 1` digits, and the rest.
pub mod_split : (a P : ℕ) → a % (P * 16) ≡ a / P % 16 * P + a % P
mod_split a P = omega (
  arith,
  div-add-mod a P,
  ap (λ (t : ℕ). P * t) (div-add-mod (a / P) 16),
  div-add-mod a (P * 16),
  ap (λ (t : ℕ). P * 16 * t) (div-div-eq-div-mul a P 16),
  mul_comm (a / P % 16) P,
)

mono : (d e P : ℕ) → d < e → d * P + P ≤ e * P
mono d e P h = grind arith

ltb_split :
    (d e r s P : ℕ)
    → r < P
    → s < P
    → ltb (d * P + r) (e * P + s) ≡ (if ltb d e then true else if d == e then ltb r s else false)
ltb_split d e r s P hr hs = ground (arith, mono d e P, mono e d P)

eq_split :
    (d e r s P : ℕ) → r < P → s < P → (d * P + r == e * P + s) ≡ (if d == e then r == s else false)
eq_split d e r s P hr hs = ground (arith, mono d e P, mono e d P)

hex_digit_order : (d e : ℕ) → d < 16 → e < 16 → (ltb (hex_digit d) (hex_digit e) ≡ ltb d e)
unfolding hex_digit
hex_digit_order d e hd he = ground arith

hex_digit_eq : (d e : ℕ) → d < 16 → e < 16 → ((hex_digit d == hex_digit e) ≡ (d == e))
unfolding hex_digit
hex_digit_eq d e hd he = ground arith

-- Behind equal numbers the rests decide.
abbrev then_compare : Bool → Bool → Bool → Bool
then_compare less same rest = if less then true else if same then rest else false

-- Fixed-width hexadecimal numbers compare as their values do.
text_lt-hex_fixed :
    (w a b : ℕ) (s t : Text)
    → text_lt (hex_fixed w a ++ s) (hex_fixed w b ++ t)
      ≡ then_compare (ltb (a % 16 ^ w) (b % 16 ^ w)) (a % 16 ^ w == b % 16 ^ w) (text_lt s t)
unfolding hex_fixed text_lt
text_lt-hex_fixed zero a b s t = ground arith
text_lt-hex_fixed (suc w) a b s t =
    let P = 16 ^ w in
    let da = a / P % 16 in
    let db = b / P % 16 in
    rw (pow-suc 16 w, mod_split a P, mod_split b P)
      (ground (
        arith,
        hex_digit_order da db,
        hex_digit_eq da db,
        ltb_split da db (a % P) (b % P) P (mod-lt a (pow_pos w)) (mod-lt b (pow_pos w)),
        eq_split da db (a % P) (b % P) P (mod-lt a (pow_pos w)) (mod-lt b (pow_pos w)),
        text_lt-hex_fixed w a b s t,
      ))

-- The name that PostgreSQL gives to a segment of a timeline.
abbrev pub wal_file_name : ℕ → ℕ → ℕ → Text
wal_file_name timeline id seg = hex_fixed 8 timeline ++ (hex_fixed 8 id ++ hex_fixed 8 seg)

hex_digit-is_wal_char : (d : ℕ) → d < 16 → is_wal_char (hex_digit d) ≡ true
unfolding hex_digit is_wal_char
hex_digit-is_wal_char d h = ground arith

hex_fixed-all_wal_chars :
    (w n : ℕ) (s : Text) → all_wal_chars (hex_fixed w n ++ s) ≡ all_wal_chars s
unfolding hex_fixed all_wal_chars
hex_fixed-all_wal_chars zero n s = refl
hex_fixed-all_wal_chars (suc w) n s =
    rw (hex_digit-is_wal_char (n / 16 ^ w % 16) (mod-lt _ (omega arith)))
      (hex_fixed-all_wal_chars w n s)

is_wal_file_name_of :
    (name : Text) → length name ≡ 24 → all_wal_chars name ≡ true → is_wal_file_name name ≡ true
unfolding is_wal_file_name
is_wal_file_name_of name l c = ground arith

wal_file_name-all_wal_chars :
    (timeline id seg : ℕ) → all_wal_chars (wal_file_name timeline id seg) ≡ true
wal_file_name-all_wal_chars timeline id seg =
    hex_fixed-all_wal_chars 8 timeline _
    ∙ hex_fixed-all_wal_chars 8 id _
    ∙ ap all_wal_chars (sym (append-nil (hex_fixed 8 seg)))
    ∙ hex_fixed-all_wal_chars 8 seg []
    ∙ unfold all_wal_chars in refl

length-wal_file_name : (timeline id seg : ℕ) → length (wal_file_name timeline id seg) ≡ 24
unfolding hex_fixed
length-wal_file_name timeline id seg = refl

drop_timeline-wal_file_name :
    (timeline id seg : ℕ)
    → drop_timeline 8 (wal_file_name timeline id seg) ≡ hex_fixed 8 id ++ hex_fixed 8 seg
unfolding hex_fixed drop_timeline
drop_timeline-wal_file_name timeline id seg = refl

no_timeline_of :
    (name : Text)
    → is_wal_file_name name ≡ true
    → wal_file_name_no_timeline name ≡ some (drop_timeline 8 name)
unfolding wal_file_name_no_timeline
no_timeline_of name h = rw h

-- `WalFileNameNoTimeLine` leaves the part behind the timeline.
pub wal_file_name_no_timeline_lem :
    (timeline id seg : ℕ)
    → wal_file_name_no_timeline (wal_file_name timeline id seg)
      ≡ some (hex_fixed 8 id ++ hex_fixed 8 seg)
wal_file_name_no_timeline_lem timeline id seg =
    no_timeline_of _ (
      is_wal_file_name_of _ (length-wal_file_name timeline id seg)
        (wal_file_name-all_wal_chars timeline id seg))
    ∙ ap some (drop_timeline-wal_file_name timeline id seg)

wal_file_name-not_empty : (timeline id seg : ℕ) → is_empty (wal_file_name timeline id seg) ≡ false
unfolding hex_fixed is_empty
wal_file_name-not_empty timeline id seg = refl

text_lt-two_numbers :
    (i s j t : ℕ)
    → text_lt (hex_fixed 8 i ++ hex_fixed 8 s) (hex_fixed 8 j ++ hex_fixed 8 t)
      ≡ then_compare
          (ltb (i % 16 ^ 8) (j % 16 ^ 8))
          (i % 16 ^ 8 == j % 16 ^ 8)
          (ltb (s % 16 ^ 8) (t % 16 ^ 8))
text_lt-two_numbers i s j t =
    let last : text_lt (hex_fixed 8 s) (hex_fixed 8 t) ≡ ltb (s % 16 ^ 8) (t % 16 ^ 8) =
      rw (← append-nil (hex_fixed 8 s), ← append-nil (hex_fixed 8 t))
        (text_lt-hex_fixed 8 s t [] [] ∙ unfold text_lt in ground arith) in
    text_lt-hex_fixed 8 i j (hex_fixed 8 s) (hex_fixed 8 t) ∙ ground (arith, last)

segments_compare :
    (pos id seg : ℕ)
    → pos < 2 ^ 64
    → id < 2 ^ 32
    → seg < 256
    → let i = pos / 2 ^ 32 % 2 ^ 32 in
      let s = pos % 2 ^ 32 / wal_seg_size in
      not (
        then_compare
          (ltb (i % 16 ^ 8) (id % 16 ^ 8))
          (i % 16 ^ 8 == id % 16 ^ 8)
          (ltb (s % 16 ^ 8) (seg % 16 ^ 8)))
      ≡ leb (id * 256 + seg) (pos / wal_seg_size)
segments_compare pos id seg hp hi hs = ground arith

-- `IsRequiredWalAvailable` compares segment numbers: a position of 64 bits is available on a
-- server whose oldest file is segment `seg` of log `id`, on any timeline, exactly where the
-- position's own segment, counted from 0 in segments of 16 MiB, is not an earlier one.
pub is_required_wal_available_lem :
    (pos timeline id seg : ℕ)
    → pos < 2 ^ 64
    → id < 2 ^ 32
    → seg < 256
    → is_required_wal_available pos (wal_file_name timeline id seg) wal_seg_size
      ≡ some (leb (id * 256 + seg) (pos / wal_seg_size))
unfolding is_required_wal_available xlog_pos_to_wal_file_name_no_timeline
is_required_wal_available_lem pos timeline id seg hp hi hs =
    rw (wal_file_name-not_empty timeline id seg, wal_file_name_no_timeline_lem timeline id seg)
      (ap some (
        ap not (text_lt-two_numbers (pos / 2 ^ 32 % 2 ^ 32) (pos % 2 ^ 32 / wal_seg_size) id seg)
        ∙ segments_compare pos id seg hp hi hs))
