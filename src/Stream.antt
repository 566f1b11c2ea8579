-- ===== src/Stream.antt =====
-- src/util.c: reading and writing values on a file. A file that is written is the bytes written so
-- far; one that is read is the bytes left, and the end of file aborts. Integers are little-endian.
pub mod Laws
use netcosm.Base.{
  ℕ, zero, suc, ◌+◌, ◌-◌, ◌*◌, ◌%◌, ◌/◌, ◌^◌, Bool, true, false, List, [], ◌∷◌, ◌++◌, length, take,
  drop, ltb, ◌==◌, if◌then◌else◌,
}
use netcosm.Base.Run.{Run, ok, abort, ◌>>=◌}
use netcosm.Text.{Bytes}

-- The memory of an unsigned integer of `w` bytes.
unfoldable pub le_bytes : ℕ → ℕ → Bytes
le_bytes zero n = []
le_bytes (suc w) n = (n % 256) ∷ le_bytes w (n / 256)

unfoldable pub le_value : Bytes → ℕ
le_value [] = 0
le_value (b ∷ bs) = b + 256 * le_value bs

abbrev pub Reader {ℓ} : Type ℓ → Type ℓ
Reader A = Bytes → Run (A × Bytes)

-- `read(fd, buf, n) != n` aborts.
unfoldable pub read_exact : ℕ → Reader Bytes
read_exact n fd = if ltb (length fd) n then abort else ok (take n fd, drop n fd)

unfoldable pub read_word : ℕ → Reader ℕ
unfolding read_exact le_value
read_word w fd = read_exact w fd >>= λ r. ok (le_value r.0, r.1)

unfoldable pub write_uint32 : ℕ → Bytes
write_uint32 n = le_bytes 4 n

unfoldable pub read_uint32 : Reader ℕ
unfolding read_word
read_uint32 = read_word 4

unfoldable pub write_uint64 : ℕ → Bytes
write_uint64 n = le_bytes 8 n

unfoldable pub read_uint64 : Reader ℕ
unfolding read_word
read_uint64 = read_word 8

-- A `size_t` has eight bytes.
unfoldable pub write_size : ℕ → Bytes
write_size n = le_bytes 8 n

unfoldable pub read_size : Reader ℕ
unfolding read_word
read_size = read_word 8

-- An `int` by its bit pattern, four bytes.
unfoldable pub write_int : ℕ → Bytes
write_int n = le_bytes 4 n

unfoldable pub read_int : Reader ℕ
unfolding read_word
read_int = read_word 4

-- A room id is an `int` too; ROOM_NONE is the pattern of -1.
abbrev pub room_none : ℕ
room_none = 2 ^ 32 - 1

unfoldable pub write_roomid : ℕ → Bytes
write_roomid id = le_bytes 4 id

unfoldable pub write_bool : Bool → Bytes
write_bool b = (if b then 1 else 0) ∷ []

unfoldable pub read_bool : Reader Bool
unfolding read_word
read_bool fd = read_word 1 fd >>= λ r. ok (if r.0 == 0 then false else true, r.1)

-- The length as a `size_t`, then the bytes without the NUL.
unfoldable pub write_string : Bytes → Bytes
write_string s = le_bytes 8 (length s) ++ s

unfoldable pub read_string : Reader Bytes
read_string fd = read_size fd >>= λ r. read_exact r.0 r.1
