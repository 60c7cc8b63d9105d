-- ===== src/Value/Printing/Numbers.antt =====
-- The words of lib/value.h: what their bytes hold, and the numbers with a sign.
use propd.Prelude.{ℕ, ◌*◌, ◌^◌, ◌<◌, ◌≡◌, arith, ℤ, pos, negsuc}
use propd.Value.{bytes4, bytes8, number_of, word, signed}

pub number_of-bytes4 : (n : ℕ) → n < 2 ^ 32 → number_of (bytes4 n) ≡ n
unfolding number_of bytes4
number_of-bytes4 n h = omega arith

pub number_of-bytes8 : (n : ℕ) → n < 2 ^ 64 → number_of (bytes8 n) ≡ n
unfolding number_of bytes4 bytes8
number_of-bytes8 n h = omega arith

-- A number with a sign that fits twice `half` values.
abbrev pub IsSigned : ℕ → ℤ → Type 0
IsSigned half (pos n) = n < half
IsSigned half (negsuc n) = n < half

pub word_bound : (half : ℕ) (z : ℤ) → IsSigned half z → word (2 * half) z < 2 * half
unfolding word
word_bound half (pos n) h = omega arith
word_bound half (negsuc n) h = omega arith

pub signed-word : (half : ℕ) (z : ℤ) → IsSigned half z → signed half (word (2 * half) z) ≡ z
unfolding signed word
signed-word half (pos n) h = ground arith
signed-word half (negsuc n) h = ground arith
