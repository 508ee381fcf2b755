-- ===== src/Prelude/Int.antt =====
-- Go's `int`, `int64` and `time.Duration`: integers of 64 bits in two's complement, over the native
-- numbers. `negsuc n` is -(n + 1).
use Prim.Native.Nat.{ℕ, zero, suc, ◌+◌, ◌-◌, ◌*◌, ◌/◌, ◌%◌, ◌≤◌, ◌<◌}
use mathlib.Core.Bool.{Bool}
use proxmaster.Prelude.Tests.{ltb, leb, eqb, if◌then◌else◌}

pub data ℤ : Type 0 where
  pos : ℕ → ℤ
  negsuc : ℕ → ℤ

abbrev pub pos_part : ℤ → ℕ
pos_part (pos n) = n
pos_part (negsuc n) = 0

abbrev pub neg_part : ℤ → ℕ
neg_part (pos n) = 0
neg_part (negsuc n) = suc n

abbrev pub ◌≤ℤ◌ : ℤ → ℤ → Type 0
a ≤ℤ b = pos_part a + neg_part b ≤ pos_part b + neg_part a

infix 50 ◌≤ℤ◌ ◌<ℤ◌
abbrev pub ◌<ℤ◌ : ℤ → ℤ → Type 0
a <ℤ b = pos_part a + neg_part b < pos_part b + neg_part a

abbrev pub ltb_ℤ : ℤ → ℤ → Bool
ltb_ℤ a b = ltb (pos_part a + neg_part b) (pos_part b + neg_part a)

abbrev pub leb_ℤ : ℤ → ℤ → Bool
leb_ℤ a b = leb (pos_part a + neg_part b) (pos_part b + neg_part a)

abbrev pub eqb_ℤ : ℤ → ℤ → Bool
eqb_ℤ a b = eqb (pos_part a + neg_part b) (pos_part b + neg_part a)

-- 2 ^ 63 and 2 ^ 64
abbrev pub int_limit : ℕ
int_limit = 9223372036854775808

abbrev pub word_limit : ℕ
word_limit = 18446744073709551616

-- `x++` on an `int`: the largest value wraps to the smallest.
abbrev pub incr : ℤ → ℤ
incr (pos n) = if eqb (n + 1) int_limit then negsuc n else pos (n + 1)
incr (negsuc zero) = pos 0
incr (negsuc (suc n)) = negsuc n

-- The bit pattern of an integer, and the integer that a bit pattern stands for.
of_word : ℕ → ℤ
of_word n = if ltb n int_limit then pos n else negsuc (word_limit - 1 - n)

to_word : ℤ → ℕ
to_word (pos n) = n % word_limit
to_word (negsuc n) = word_limit - 1 - n % word_limit

-- `x * k` on an `int64`, `k` not negative: the product of the bit patterns modulo 2 ^ 64.
unfoldable pub scale : ℤ → ℕ → ℤ
unfolding of_word to_word
scale x k = of_word (to_word x * k % word_limit)

-- -n
abbrev pub negated : ℕ → ℤ
negated zero = pos 0
negated (suc n) = negsuc n

-- The integral part of a quotient, on integral values: it is cut towards zero.
abbrev pub quotient : ℤ → ℕ → ℤ
quotient (pos n) k = pos (n / k)
quotient (negsuc n) k = negated ((n + 1) / k)
