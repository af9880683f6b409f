-- ===== src/Cbor/Sample.antt =====
-- A codec with the documented behaviour, after RFC 8949, so that the theorems over a codec have an
-- instance.
use envshare.Prelude.{
  ℕ, zero, ◌+◌, ◌*◌, ◌/◌, ◌%◌, ◌^◌, ◌≤◌, ◌<◌, ◌≡◌, Bool, true, Option, some, none, [], ◌∷◌, ◌++◌,
  append_assoc, arith, ◌&&◌, lt→ltb, leb, ltb, ◌==◌, if◌then◌else◌, take, drop,
  take_append_of_length, drop_append_of_length, all, length, length-append, Bytes, to_be_bytes,
  from_be_bytes, length-to_be_bytes, from_be_bytes-u16, from_be_bytes-u32, from_be_bytes-u64,
}
use envshare.Cbor.{Cbor, IsCbor, ItemType, null, string, other}

-- The major type and the argument.
head : ℕ → ℕ → Bytes
head major n =
    if ltb n 24
    then (major * 32 + n) ∷ []
    else if ltb n (2 ^ 16)
    then (major * 32 + 25) ∷ to_be_bytes 2 n
    else if ltb n (2 ^ 32)
    then (major * 32 + 26) ∷ to_be_bytes 4 n
    else (major * 32 + 27) ∷ to_be_bytes 8 n

argument : ℕ → ℕ → Bytes → Option (ℕ × ℕ × Bytes)
argument size major rest =
    if ltb (length rest) size
    then none
    else some (major, from_be_bytes (take size rest), drop size rest)

read_head : Bytes → Option (ℕ × ℕ × Bytes)
read_head [] = none
read_head (b ∷ rest) =
    if ltb (b % 32) 24
    then some (b / 32, b % 32, rest)
    else if b % 32 == 25
    then argument 2 (b / 32) rest
    else if b % 32 == 26
    then argument 4 (b / 32) rest
    else if b % 32 == 27
    then argument 8 (b / 32) rest
    else none

argument_lem :
    (size major n : ℕ) (rest : Bytes)
    → from_be_bytes (to_be_bytes size n) ≡ n
    → argument size major (to_be_bytes size n ++ rest) ≡ some (major, n, rest)
unfolding argument
argument_lem size major n rest h = ground (
  arith,
  take_append_of_length size (to_be_bytes size n) rest,
  drop_append_of_length size (to_be_bytes size n) rest,
  length-to_be_bytes size n,
  length-append (to_be_bytes size n) rest,
)

read_head_lem :
    (major n : ℕ) (rest : Bytes)
    → n < 2 ^ 64
    → read_head (head major n ++ rest) ≡ some (major, n, rest)
unfolding read_head head
read_head_lem major n rest h = ground (
  arith,
  argument_lem 2 major n rest,
  argument_lem 4 major n rest,
  argument_lem 8 major n rest,
  from_be_bytes-u16 n,
  from_be_bytes-u32 n,
  from_be_bytes-u64 n,
)

length-head : (major n : ℕ) → length (head major n) ≤ 9
unfolding head
length-head major n =
    ground (arith, length-to_be_bytes 2 n, length-to_be_bytes 4 n, length-to_be_bytes 8 n)

uint_of : ℕ → Option (ℕ × ℕ × Bytes) → Option (ℕ × Bytes)
uint_of bound (some (zero, n, rest)) = if ltb n bound then some (n, rest) else none
uint_of bound _ = none

payload_of : ℕ → Option (ℕ × ℕ × Bytes) → Option (Bytes × Bytes)
payload_of major (some (m, n, rest)) =
    if (m == major) && leb n (length rest) then some (take n rest, drop n rest) else none
payload_of major none = none

count_of : ℕ → Option (ℕ × ℕ × Bytes) → Option (Option ℕ × Bytes)
count_of major (some (m, n, rest)) = if m == major then some (some n, rest) else none
count_of major none = none

null_of : Option (ℕ × ℕ × Bytes) → Option Bytes
null_of (some (m, n, rest)) = if (m == 7) && (n == 22) then some rest else none
null_of none = none

type_of : Option (ℕ × ℕ × Bytes) → Option ItemType
type_of (some (m, n, rest)) =
    some (if (m == 7) && (n == 22) then null else if m == 3 then string else other)
type_of none = none

abbrev is_ascii : Bytes → Bool
is_ascii = all (λ b. ltb b 128)

text_of : Option (Bytes × Bytes) → Option (Bytes × Bytes)
text_of (some (s, rest)) = if is_ascii s then some (s, rest) else none
text_of none = none

unfoldable pub sample : Cbor
unfolding head argument read_head uint_of payload_of text_of null_of count_of type_of
sample = record {
  put_uint = head 0;
  put_bytes = λ b. head 2 (length b) ++ b;
  put_str = λ s. head 3 (length s) ++ s;
  put_null = head 7 22;
  put_array = head 4;
  put_map = head 5;
  get_u8 = λ r. uint_of (2 ^ 8) (read_head r);
  get_u16 = λ r. uint_of (2 ^ 16) (read_head r);
  get_u32 = λ r. uint_of (2 ^ 32) (read_head r);
  get_u64 = λ r. uint_of (2 ^ 64) (read_head r);
  get_bytes = λ r. payload_of 2 (read_head r);
  get_str = λ r. text_of (payload_of 3 (read_head r));
  get_null = λ r. null_of (read_head r);
  get_array = λ r. count_of 4 (read_head r);
  get_map = λ r. count_of 5 (read_head r);
  datatype = λ r. type_of (read_head r);
  is_utf8 = is_ascii;
}

uint_lem :
    (bound n : ℕ) (rest : Bytes)
    → bound ≤ 2 ^ 64
    → n < bound
    → uint_of bound (read_head (head 0 n ++ rest)) ≡ some (n, rest)
unfolding uint_of
uint_lem bound n rest b h = rw (read_head_lem 0 n rest (omega arith), lt→ltb n bound h)

payload_lem :
    (major : ℕ) (b rest : Bytes)
    → length b < 2 ^ 64
    → payload_of major (read_head (head major (length b) ++ b ++ rest)) ≡ some (b, rest)
unfolding payload_of
payload_lem major b rest h =
    rw (append_assoc (head major (length b)) b rest, read_head_lem major (length b) (b ++ rest) h)
      (ground (
        arith,
        take_append_of_length (length b) b rest,
        drop_append_of_length (length b) b rest,
        length-append b rest,
      ))

count_lem :
    (major n : ℕ) (rest : Bytes)
    → n < 2 ^ 64
    → count_of major (read_head (head major n ++ rest)) ≡ some (some n, rest)
unfolding count_of
count_lem major n rest h = rw (read_head_lem major n rest h) (ground arith)

null_lem : (rest : Bytes) → null_of (read_head (head 7 22 ++ rest)) ≡ some rest
unfolding null_of
null_lem rest = rw (read_head_lem 7 22 rest (omega arith))

type_null_lem : (rest : Bytes) → type_of (read_head (head 7 22 ++ rest)) ≡ some null
unfolding type_of
type_null_lem rest = rw (read_head_lem 7 22 rest (omega arith))

type_str_lem :
    (n : ℕ) (s rest : Bytes)
    → n < 2 ^ 64
    → type_of (read_head (head 3 n ++ s ++ rest)) ≡ some string
unfolding type_of
type_str_lem n s rest h = rw (append_assoc (head 3 n) s rest, read_head_lem 3 n (s ++ rest) h)

text_lem :
    (s rest : Bytes)
    → length s < 2 ^ 64
    → is_ascii s ≡ true
    → text_of (payload_of 3 (read_head (head 3 (length s) ++ s ++ rest))) ≡ some (s, rest)
unfolding text_of
text_lem s rest h a = rw (payload_lem 3 s rest h, a)

length-head-pos : (major n : ℕ) → 0 < length (head major n)
unfolding head
length-head-pos major n = ground arith

pub sample-IsCbor : IsCbor sample
unfolding sample
sample-IsCbor = record {
  u8 = λ n rest. uint_lem (2 ^ 8) n rest (omega arith);
  u16 = λ n rest. uint_lem (2 ^ 16) n rest (omega arith);
  u32 = λ n rest. uint_lem (2 ^ 32) n rest (omega arith);
  u64 = λ n rest. uint_lem (2 ^ 64) n rest (omega arith);
  bytes = λ b rest. payload_lem 2 b rest;
  str = text_lem;
  nil = null_lem;
  array = count_lem 4;
  map = count_lem 5;
  datatype_null = type_null_lem;
  datatype_str = λ s rest. type_str_lem (length s) s rest;
  size_uint = length-head 0;
  size_bytes = λ b. omega (arith, length-append (head 2 (length b)) b, length-head 2 (length b));
  size_str = λ s. omega (arith, length-append (head 3 (length s)) s, length-head 3 (length s));
  size_null = length-head 7 22;
  size_array = length-head 4;
  size_map = length-head 5;
  some_array = length-head-pos 4;
  some_map = length-head-pos 5;
}
