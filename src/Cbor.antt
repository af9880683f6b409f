-- ===== src/Cbor.antt =====
-- The minicbor crate, which the repository only calls: the items that it writes, and the readers of
-- one item at the front of the input. An encoder over a `Vec` does not fail. A decoder is the input
-- that it has not read, so its position is the end of the input exactly when that is empty.
pub mod Sample
use envshare.Prelude.{
  ℕ, ◌+◌, ◌^◌, ◌≤◌, ◌<◌, ◌≡◌, Bool, true, false, Option, none, some, ◌==◌, ◌++◌, length, Bytes,
}

-- `minicbor::data::Type`, as far as the repository tells types apart.
pub data ItemType : Type 0 where
  null string other : ItemType

pub record Cbor : Type 0 where
  -- `u8`, `u16`, `u32` and `u64` of the encoder write the shortest form of the number.
  pub put_uint : ℕ → Bytes
  pub put_bytes : Bytes → Bytes
  pub put_str : Bytes → Bytes
  pub put_null : Bytes
  pub put_array : ℕ → Bytes
  pub put_map : ℕ → Bytes
  pub get_u8 : Bytes → Option (ℕ × Bytes)
  pub get_u16 : Bytes → Option (ℕ × Bytes)
  pub get_u32 : Bytes → Option (ℕ × Bytes)
  pub get_u64 : Bytes → Option (ℕ × Bytes)
  pub get_bytes : Bytes → Option (Bytes × Bytes)
  pub get_str : Bytes → Option (Bytes × Bytes)
  pub get_null : Bytes → Option Bytes
  -- `none` is the length of an indefinite array or map.
  pub get_array : Bytes → Option (Option ℕ × Bytes)
  pub get_map : Bytes → Option (Option ℕ × Bytes)
  pub datatype : Bytes → Option ItemType
  -- What `std::str::from_utf8` accepts.
  pub is_utf8 : Bytes → Bool

-- What the crate documents: each reader returns what the writer wrote, and leaves what follows.
pub record IsCbor (C : Cbor) : Type 0 where
  pub u8 : (n : ℕ) (rest : Bytes) → n < 2 ^ 8 → C.get_u8 (C.put_uint n ++ rest) ≡ some (n, rest)
  pub u16 : (n : ℕ) (rest : Bytes) → n < 2 ^ 16 → C.get_u16 (C.put_uint n ++ rest) ≡ some (n, rest)
  pub u32 : (n : ℕ) (rest : Bytes) → n < 2 ^ 32 → C.get_u32 (C.put_uint n ++ rest) ≡ some (n, rest)
  pub u64 : (n : ℕ) (rest : Bytes) → n < 2 ^ 64 → C.get_u64 (C.put_uint n ++ rest) ≡ some (n, rest)
  pub bytes :
      (b : Bytes) (rest : Bytes)
      → length b < 2 ^ 64
      → C.get_bytes (C.put_bytes b ++ rest) ≡ some (b, rest)
  pub str :
      (s : Bytes) (rest : Bytes)
      → length s < 2 ^ 64
      → C.is_utf8 s ≡ true
      → C.get_str (C.put_str s ++ rest) ≡ some (s, rest)
  pub nil : (rest : Bytes) → C.get_null (C.put_null ++ rest) ≡ some rest
  pub array :
      (n : ℕ) (rest : Bytes)
      → n < 2 ^ 64
      → C.get_array (C.put_array n ++ rest) ≡ some (some n, rest)
  pub map :
      (n : ℕ) (rest : Bytes) → n < 2 ^ 64 → C.get_map (C.put_map n ++ rest) ≡ some (some n, rest)
  pub datatype_null : (rest : Bytes) → C.datatype (C.put_null ++ rest) ≡ some null
  pub datatype_str :
      (s rest : Bytes) → length s < 2 ^ 64 → C.datatype (C.put_str s ++ rest) ≡ some string
  -- A head has 9 bytes at most.
  pub size_uint : (n : ℕ) → length (C.put_uint n) ≤ 9
  pub size_bytes : (b : Bytes) → length (C.put_bytes b) ≤ length b + 9
  pub size_str : (s : Bytes) → length (C.put_str s) ≤ length s + 9
  pub size_null : length C.put_null ≤ 9
  pub size_array : (n : ℕ) → length (C.put_array n) ≤ 9
  pub size_map : (n : ℕ) → length (C.put_map n) ≤ 9
  -- No item is empty.
  pub some_array : (n : ℕ) → 0 < length (C.put_array n)
  pub some_map : (n : ℕ) → 0 < length (C.put_map n)

-- `decoder.map()? != Some(n)` and the same for arrays.
unfoldable pub has_length : Option ℕ → ℕ → Bool
has_length (some n) expected = n == expected
has_length none expected = false
