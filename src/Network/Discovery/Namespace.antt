-- ===== src/Network/Discovery/Namespace.antt =====
-- crates/network/src/discovery.rs and crates/node/src/rendezvous/store.rs: the namespaces of the
-- client, as the node tests them.
use envshare.Prelude.{
  ◌↔◌, ℕ, zero, suc, ◌-◌, ◌*◌, ◌/◌, ◌%◌, ◌<◌, ◌≡◌, refl, sym, ap, ap₂, ◌∙◌, Bool, true, ◌&&◌, [],
  ◌∷◌, leb, ◌==◌, ==_iff, &&_iff, if◌then◌else◌, length, get_or, all, All, IsByte, Bytes, bytes_of,
  bytes_eq, append-inj, arith,
}
use envshare.Node.Address.{valid_namespace, is_lower_hex}
use envshare.Network.Discovery.{from_room_id, push_hex, hex}

-- A test of the sixteen digits.
all_below : ℕ → (ℕ → Bool) → Bool
all_below zero test = true
all_below (suc n) test = test n && all_below n test

all_below_sound :
    (n : ℕ) (test : ℕ → Bool) (x : ℕ) → all_below n test ≡ true → x < n → test x ≡ true
unfolding all_below
all_below_sound zero test x h lt = absurd (omega arith)
all_below_sound (suc n) test x h lt = ground (arith, all_below_sound n test x)

abbrev hex_digit : ℕ → ℕ
hex_digit value = get_or hex value 0

abbrev digit_value : ℕ → ℕ
digit_value c = if leb b'a' c then c - 87 else c - 48

digits_table :
    all_below 16 (λ n. is_lower_hex (hex_digit n) && digit_value (hex_digit n) == n) ≡ true
unfolding all_below
digits_table = refl

digit_lem : (n : ℕ) → n < 16 → (is_lower_hex (hex_digit n) && digit_value (hex_digit n) == n) ≡ true
digit_lem n h =
    all_below_sound 16 (λ n. is_lower_hex (hex_digit n) && digit_value (hex_digit n) == n) n
      digits_table h

digit_parts :
    (n : ℕ) → n < 16 → (is_lower_hex (hex_digit n) ≡ true) × (digit_value (hex_digit n) ≡ n)
digit_parts n h =
    let (lower, value) = (&&_iff _ _).0 (digit_lem n h) in (lower, (==_iff _ _).0 value)

hex_digit-inj : (m n : ℕ) → m < 16 → n < 16 → hex_digit m ≡ hex_digit n → m ≡ n
hex_digit-inj m n hm hn e =
    sym (digit_parts m hm).1 ∙ ap (λ c. digit_value c) e ∙ (digit_parts n hn).1

length-push_hex : (room : Bytes) → length (push_hex room) ≡ 2 * length room
unfolding push_hex
length-push_hex [] = omega arith
length-push_hex (byte ∷ room) = omega (arith, length-push_hex room)

push_hex-lower : (room : Bytes) → All IsByte room → all is_lower_hex (push_hex room) ≡ true
unfolding push_hex
push_hex-lower [] h = refl
push_hex-lower (byte ∷ room) (p, h) =
    rw (digit_parts (byte / 16) (omega arith)).0
      (rw (digit_parts (byte % 16) (omega arith)).0 (push_hex-lower room h))

push_hex-inj : (a b : Bytes) → All IsByte a → All IsByte b → push_hex a ≡ push_hex b → a ≡ b
unfolding push_hex
push_hex-inj [] [] ha hb e = refl
push_hex-inj [] (y ∷ ys) ha hb e = cc
push_hex-inj (x ∷ xs) [] ha hb e = cc
push_hex-inj (x ∷ xs) (y ∷ ys) (px, hx) (py, hy) e =
    let high = hex_digit-inj (x / 16) (y / 16) (omega arith) (omega arith) (cc) in
    let low = hex_digit-inj (x % 16) (y % 16) (omega arith) (omega arith) (cc) in
    ap₂ ◌∷◌ (omega arith) (push_hex-inj xs ys hx hy (cc))

from_room_id-inj :
    (a b : Bytes) → All IsByte a → All IsByte b → from_room_id a ≡ from_room_id b → a ≡ b
unfolding from_room_id
from_room_id-inj a b ha hb e =
    push_hex-inj a b ha hb
      (append-inj (bytes_of "envshare-v1-") (bytes_of "envshare-v1-") (push_hex a) (push_hex b) refl
        e).1

valid_namespace-from_room_id :
    (room : Bytes) → All IsByte room → length room ≡ 16 → valid_namespace (from_room_id room) ≡ true
unfolding valid_namespace from_room_id bytes_eq
valid_namespace-from_room_id room h size = rw (push_hex-lower room h) (
    (&&_iff _ _).1
      ((&&_iff _ _).1 ((==_iff _ _).1 (omega (arith, length-push_hex room, size)), refl), refl))

-- The namespace of a room of 16 bytes is one that the node's store accepts, and two rooms have the
-- same namespace exactly when they are equal.
pub from_room_id-IsRoom :
    (a b : Bytes)
    → All IsByte a
    → All IsByte b
    → length a ≡ 16
    → (valid_namespace (from_room_id a) ≡ true) × ((from_room_id a ≡ from_room_id b) ↔ (a ≡ b))
from_room_id-IsRoom a b ha hb size =
    (valid_namespace-from_room_id a ha size, (from_room_id-inj a b ha hb, λ e. ap from_room_id e))
