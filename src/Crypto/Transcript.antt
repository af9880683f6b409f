-- ===== src/Crypto/Transcript.antt =====
-- crates/crypto/src/transcript.rs: the bounded byte builder. A transcript is its bytes, `finish`
-- returns them, and each append returns the new transcript.
use envshare.Prelude.{
  ℕ, ◌+◌, ◌-◌, ◌*◌, ◌^◌, ◌≡◌, min, Bool, List, [], ◌∷◌, ◌++◌, leb, ltb, if◌then◌else◌, length,
  Bytes, to_be_bytes, ok, err, ◌>>=◌, ◌>>◌, guard,
}
use envshare.Protocol.Limits.{max_transcript_bytes}
use envshare.Crypto.Types.{Crypto, transcript_too_large}
pub mod Encoding

abbrev usize_max : ℕ
usize_max = 2 ^ 64 - 1

-- `checked_add`, then the hard bound.
pub ensure_capacity : Bytes → ℕ → Crypto (Unit {0})
ensure_capacity transcript additional = do
  guard (leb (length transcript + additional) usize_max) transcript_too_large
  guard (leb (length transcript + additional) max_transcript_bytes) transcript_too_large

unfoldable append_fixed : Bytes → Bytes → Crypto Bytes
unfolding ensure_capacity
append_fixed transcript value = do
  ensure_capacity transcript (length value)
  ok (transcript ++ value)

unfoldable pub append_u16 : Bytes → ℕ → Crypto Bytes
unfolding append_fixed
append_u16 transcript value = append_fixed transcript (to_be_bytes 2 value)

unfoldable pub append_u32 : Bytes → ℕ → Crypto Bytes
unfolding append_fixed
append_u32 transcript value = append_fixed transcript (to_be_bytes 4 value)

unfoldable pub append_u64 : Bytes → ℕ → Crypto Bytes
unfolding append_fixed
append_u64 transcript value = append_fixed transcript (to_be_bytes 8 value)

-- `4_usize.saturating_add(value.len())` is a `min`.
unfoldable pub append_bytes : Bytes → Bytes → Crypto Bytes
unfolding ensure_capacity
append_bytes transcript value = do
  guard (ltb (length value) (2 ^ 32)) transcript_too_large
  ensure_capacity transcript (min (4 + length value) usize_max)
  ok (transcript ++ (to_be_bytes 4 (length value) ++ value))

unfoldable pub new : Bytes → Crypto Bytes
new domain = append_bytes [] domain
