-- ===== src/Prelude/Time.antt =====
-- What the code uses of Go's package time, in whole nanoseconds: an instant is a number counted from
-- Go's zero time, a duration is a signed number (`negsuc n` is -(n + 1)).
use Prim.Native.Nat.{ℕ, suc, ◌+◌, ◌-◌, ◌/◌}
use mathlib.Core.Bool.{Bool, true, false, not}
use reeve.Prelude.Tests.{ltb, leb, ◌==◌, if◌then◌else◌}

pub data ℤ : Type 0 where
  pos : ℕ → ℤ
  negsuc : ℕ → ℤ

abbrev pub pos_part : ℤ → ℕ
pos_part (pos n) = n
pos_part (negsuc n) = 0

abbrev pub neg_part : ℤ → ℕ
neg_part (pos n) = 0
neg_part (negsuc n) = suc n

infixl 65 ◌+ℤ◌
abbrev pub ◌+ℤ◌ : ℤ → ℤ → ℤ
a +ℤ b =
    let up = pos_part a + pos_part b in
    let down = neg_part a + neg_part b in
    if leb down up then pos (up - down) else negsuc (down - up - 1)

-- a < b.
abbrev pub lt_int : ℤ → ℤ → Bool
lt_int (pos a) (pos b) = ltb a b
lt_int (pos a) (negsuc b) = false
lt_int (negsuc a) (pos b) = true
lt_int (negsuc a) (negsuc b) = ltb b a

-- a ≤ b.
abbrev pub le_int : ℤ → ℤ → Bool
le_int a b = not (lt_int b a)

abbrev pub is_positive : ℤ → Bool
is_positive (pos n) = ltb 0 n
is_positive (negsuc n) = false

abbrev pub is_zero_int : ℤ → Bool
is_zero_int (pos n) = n == 0
is_zero_int (negsuc n) = false

-- `t.Add(d)`. An instant before the zero time is not told from it.
abbrev pub add_time : ℕ → ℤ → ℕ
add_time t (pos d) = t + d
add_time t (negsuc d) = t - suc d

-- `t.Sub(u)`.
abbrev pub sub_time : ℕ → ℕ → ℤ
sub_time t u = if leb u t then pos (t - u) else negsuc (u - t - 1)

-- `t.IsZero()`.
abbrev pub is_zero_time : ℕ → Bool
is_zero_time t = t == 0

abbrev pub second : ℕ
second = 1000000000

-- A timestamp field of a stored object, as the code can observe it: the empty text, a text that
-- `time.Parse(time.RFC3339, …)` reads as that many whole seconds, or one that it refuses.
pub data Stamp : Type 0 where
  unset : Stamp
  at : ℕ → Stamp
  garbled : Stamp

-- `t.UTC().Format(time.RFC3339)` drops the fraction of a second.
abbrev pub stamp : ℕ → Stamp
stamp t = at (t / second)
