-- ===== src/Base/Int.antt =====
-- Signed integers over the native numbers, for durations and priorities, and points in time.
use Prim.Native.Nat.{ℕ, suc, ◌+◌, ◌-◌, ◌%◌, ◌^◌, min}
use mathlib.Core.Bool.{Bool}
use hysteron.Base.Tests.{ltb, leb, if◌then◌else◌}

-- `negsuc n` is -(n + 1).
pub data ℤ : Type 0 where
  pos : ℕ → ℤ
  negsuc : ℕ → ℤ

abbrev pub pos_part : ℤ → ℕ
pos_part (pos n) = n
pos_part (negsuc n) = 0

abbrev pub neg_part : ℤ → ℕ
neg_part (pos n) = 0
neg_part (negsuc n) = suc n

abbrev pub ltb_ℤ : ℤ → ℤ → Bool
ltb_ℤ a b = ltb (pos_part a + neg_part b) (pos_part b + neg_part a)

abbrev pub leb_ℤ : ℤ → ℤ → Bool
leb_ℤ a b = leb (pos_part a + neg_part b) (pos_part b + neg_part a)

-- A `time.Duration`: an int64 of nanoseconds.
abbrev pub Duration : Type 0
Duration = ℤ

-- A `time.Time`: the nanoseconds since Go's zero time, which is 0.
abbrev pub Time : Type 0
Time = ℕ

max_duration : ℕ
max_duration = 2 ^ 63 - 1

-- `t.Sub(u)`, which stops at the ends of int64.
unfoldable pub sub_time : Time → Time → Duration
unfolding max_duration
sub_time t u =
    if leb u t then pos (min (t - u) max_duration) else negsuc (min (u - t - 1) max_duration)

-- `now.After(t.Add(d))`
abbrev pub is_after : Time → Time → Duration → Bool
is_after now t d = ltb (t + pos_part d) (now + neg_part d)

-- p - n in 64 bits, as Go's int64 arithmetic leaves it.
unfoldable pub wrap_int64 : ℕ → ℕ → ℤ
wrap_int64 p n =
    let word = (p + (2 ^ 64 - n % 2 ^ 64)) % 2 ^ 64 in
    if ltb word (2 ^ 63) then pos word else negsuc (2 ^ 64 - 1 - word)

-- `a + b` on `time.Duration`.
unfoldable pub add_duration : Duration → Duration → Duration
unfolding wrap_int64
add_duration a b = wrap_int64 (pos_part a + pos_part b) (neg_part a + neg_part b)
