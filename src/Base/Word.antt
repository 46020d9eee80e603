-- ===== src/Base/Word.antt =====
-- Go's int64, as the bit pattern of its two's complement: a number below 2 ^ 64.
use Prim.Native.Nat.{ℕ, ◌+◌, ◌*◌, ◌%◌}
use mathlib.Core.Bool.{Bool}
use llm_inference_gateway.Base.Tests.{leb, if◌then◌else◌}

abbrev pub int64_mod : ℕ
int64_mod = 18446744073709551616

abbrev pub int64_sign : ℕ
int64_sign = 9223372036854775808

-- Signed order: flipping the sign bit orders the patterns as numbers.
abbrev pub le64 : ℕ → ℕ → Bool
le64 a b = leb ((a + int64_sign) % int64_mod) ((b + int64_sign) % int64_mod)

abbrev pub min64 : ℕ → ℕ → ℕ
min64 a b = if le64 a b then a else b

abbrev pub mul64 : ℕ → ℕ → ℕ
mul64 a b = a * b % int64_mod
