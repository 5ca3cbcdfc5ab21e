-- ===== src/Prelude/Int.antt =====
-- Signed integers over the native numbers; `negsuc n` is -(n + 1).
use Prim.Native.Nat.{ℕ, zero, suc, ◌+◌, ◌-◌, ◌^◌}
use mathlib.Core.Bool.{Bool, true, false}
use mahi_ai.Prelude.Tests.{leb, nat_beq, if◌then◌else◌}

pub data ℤ : Type 0 where
  pos : ℕ → ℤ
  negsuc : ℕ → ℤ

-- `a <= b`
abbrev pub leb_ℤ : ℤ → ℤ → Bool
leb_ℤ (pos a) (pos b) = leb a b
leb_ℤ (pos a) (negsuc b) = false
leb_ℤ (negsuc a) (pos b) = true
leb_ℤ (negsuc a) (negsuc b) = leb b a

-- `i64::MAX`
abbrev pub i64_max : ℕ
i64_max = 2 ^ 63 - 1

-- `n + 1` on an `i64`, with its wrap-around.
abbrev pub i64_succ : ℤ → ℤ
i64_succ (pos n) = if nat_beq n i64_max then negsuc i64_max else pos (n + 1)
i64_succ (negsuc zero) = pos 0
i64_succ (negsuc (suc n)) = negsuc n

-- A natural number plus an integer.
abbrev pub offset : ℕ → ℤ → ℤ
offset n (pos k) = pos (n + k)
offset n (negsuc k) = if leb (suc k) n then pos (n - suc k) else negsuc (k - n)
