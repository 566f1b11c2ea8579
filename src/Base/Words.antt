-- ===== src/Base/Words.antt =====
-- Machine words: `unsigned` has 32 bits and `size_t` has 64, as on the platforms the server is
-- built for.
use Prim.Native.Nat.{ℕ, ◌+◌, ◌-◌, ◌%◌, ◌^◌}

-- The moduli of `unsigned` and `size_t`.
abbrev pub u32_mod : ℕ
u32_mod = 2 ^ 32

abbrev pub u64_mod : ℕ
u64_mod = 2 ^ 64

-- `++x` and `--x` on a `size_t`, with their wrap-around.
abbrev pub inc64 : ℕ → ℕ
inc64 x = (x + 1) % u64_mod

abbrev pub dec64 : ℕ → ℕ
dec64 x = (x + (u64_mod - 1)) % u64_mod

-- `x` after `d` decrements.
abbrev pub sub64 : ℕ → ℕ → ℕ
sub64 x d = (x + (u64_mod - d % u64_mod)) % u64_mod
