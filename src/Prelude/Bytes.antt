-- ===== src/Prelude/Bytes.antt =====
-- What the program takes from the `byteorder` crate, as a parameter with the documented laws.
use sanzu.Prelude.Lists.{length}
use Prim.Native.Nat.{ℕ, ◌^◌, ◌<◌}
use mathlib.Core.Path.{◌≡◌}
use mathlib.Core.List.{List}

-- `LittleEndian::write_u64` into a buffer of eight bytes, `read_u64` from such a buffer, and
-- `write_u32` into a buffer of four.
pub record LittleEndian : Type 0 where
  pub write_u64 : ℕ → List ℕ
  pub read_u64 : List ℕ → ℕ
  pub write_u32 : ℕ → List ℕ

pub record LittleEndianLaws (b : LittleEndian) : Type 0 where
  pub write_length : (n : ℕ) → length (b.write_u64 n) ≡ 8
  pub read_write : (n : ℕ) → n < 2 ^ 64 → b.read_u64 (b.write_u64 n) ≡ n
