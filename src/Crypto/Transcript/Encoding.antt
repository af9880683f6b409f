-- ===== src/Crypto/Transcript/Encoding.antt =====
-- crates/crypto/src/transcript.rs: the bytes of a sequence of appends.
use envshare.Prelude.{
  ℕ, ◌+◌, ◌^◌, ◌≤◌, ◌<◌, ◌≡◌, refl, ap, ap₂, sym, ◌∙◌, min, List, [], ◌∷◌, ◌++◌, append-nil,
  append_assoc, arith, ltb, length, length-append, append-inj, All, Bytes, to_be_bytes,
  from_be_bytes, length-to_be_bytes, from_be_bytes-u16, from_be_bytes-u32, from_be_bytes-u64, ok,
  err, ◌>>=◌, >>=-eq-ok, guard-bind-eq-ok, ok-inj, ltb→lt,
}
use envshare.Protocol.Limits.{max_transcript_bytes}
use envshare.Crypto.Types.{Crypto}
use envshare.Crypto.Transcript.{
  ensure_capacity, usize_max, append_u16, append_u32, append_u64, append_bytes,
}

-- One append.
pub data Field : Type 0 where
  u16 u32 u64 : ℕ → Field
  bytes : Bytes → Field

abbrev append_field : Bytes → Field → Crypto Bytes
append_field t (u16 n) = append_u16 t n
append_field t (u32 n) = append_u32 t n
append_field t (u64 n) = append_u64 t n
append_field t (bytes v) = append_bytes t v

abbrev pub append_all : Bytes → List Field → Crypto Bytes
append_all t [] = ok t
append_all t (f ∷ fs) = append_field t f >>= λ t'. append_all t' fs

-- The appends check the length of a byte string themselves.
abbrev SizeFits : Field → Type 0
SizeFits (bytes v) = length v < 2 ^ 32
SizeFits _ = Unit {0}

-- A value of the field's Rust type; a longer byte string is refused by the transcript.
abbrev pub Fits : Field → Type 0
Fits (u16 n) = n < 2 ^ 16
Fits (u32 n) = n < 2 ^ 32
Fits (u64 n) = n < 2 ^ 64
Fits (bytes v) = length v < 2 ^ 32

abbrev encode_field : Field → Bytes
encode_field (u16 n) = to_be_bytes 2 n
encode_field (u32 n) = to_be_bytes 4 n
encode_field (u64 n) = to_be_bytes 8 n
encode_field (bytes v) = to_be_bytes 4 (length v) ++ v

abbrev pub encode : List Field → Bytes
encode [] = []
encode (f ∷ fs) = encode_field f ++ encode fs

abbrev SameKind : Field → Field → Type 0
SameKind (u16 _) (u16 _) = Unit {0}
SameKind (u32 _) (u32 _) = Unit {0}
SameKind (u64 _) (u64 _) = Unit {0}
SameKind (bytes _) (bytes _) = Unit {0}
SameKind _ _ = ⊥

abbrev SameShape : List Field → List Field → Type 0
SameShape [] [] = Unit {0}
SameShape (f ∷ fs) (g ∷ gs) = SameKind f g × SameShape fs gs
SameShape _ _ = ⊥

append_all-append :
    (t : Bytes) (fs gs : List Field)
    → append_all t (fs ++ gs) ≡ (append_all t fs >>= λ t'. append_all t' gs)
append_all-append t [] gs = refl
append_all-append t (f ∷ fs) gs =
    elim (append_field t f)
      as (λ m.
        (m >>= λ t'. append_all t' (fs ++ gs))
        ≡ (m >>= (λ t'. append_all t' fs) >>= λ t'. append_all t' gs)) [
          | ok t' ↦ append_all-append t' fs gs
          | err e ↦ refl
        ]

ensure_capacity_sound :
    (t : Bytes) (additional : ℕ) {u : Unit {0}}
    → ensure_capacity t additional ≡ ok u
    → length t + additional ≤ max_transcript_bytes
unfolding ensure_capacity
ensure_capacity_sound t additional h = ground arith

-- What the appends of a successful sequence have written, and that each fits.
append_field_sound :
    (t t' : Bytes) (f : Field)
    → append_field t f ≡ ok t'
    → (t' ≡ t ++ encode_field f) × (length t' ≤ max_transcript_bytes) × (SizeFits f)
unfolding append_u16 append_u32 append_u64 append_bytes
append_field_sound t t' (u16 n) h = ground (arith, length-append t (to_be_bytes 2 n))
append_field_sound t t' (u32 n) h = ground (arith, length-append t (to_be_bytes 4 n))
append_field_sound t t' (u64 n) h = ground (arith, length-append t (to_be_bytes 8 n))
append_field_sound t t' (bytes v) h =
    let (small, h1) = guard-bind-eq-ok (ltb (length v) (2 ^ 32)) _ _ h in
    let (u, room, h2) = >>=-eq-ok (ensure_capacity t (min (4 + length v) usize_max)) _ h1 in
    let is = ok-inj h2 in
    (
      sym is,
      omega (
        arith,
        ltb→lt _ _ small,
        ensure_capacity_sound t _ room,
        ap length is,
        length-append t (to_be_bytes 4 (length v) ++ v),
        length-append (to_be_bytes 4 (length v)) v,
        length-to_be_bytes 4 (length v),
      ),
      ltb→lt _ _ small,
    )

append_all_sound :
    (t t' : Bytes) (fs : List Field)
    → append_all t fs ≡ ok t'
    → (t' ≡ t ++ encode fs) × All SizeFits fs
append_all_sound t t' [] h = (ground (arith, append-nil t), tt)
append_all_sound t t' (f ∷ fs) h =
    let (m, e, h1) = >>=-eq-ok (append_field t f) _ h in
    let first = append_field_sound t m f e in
    let rest = append_all_sound m t' fs h1 in
    (
      rest.0 ∙ ap (λ x. x ++ encode fs) first.0 ∙ append_assoc t (encode_field f) (encode fs),
      (first.2, rest.1),
    )

encode_field-inj :
    (f g : Field) (xs ys : Bytes)
    → SameKind f g
    → Fits f
    → Fits g
    → encode_field f ++ xs ≡ encode_field g ++ ys
    → (f ≡ g) × (xs ≡ ys)
unfolding to_be_bytes
encode_field-inj (u16 m) (u16 n) xs ys k p q h =
    let (e, r) = append-inj (to_be_bytes 2 m) (to_be_bytes 2 n) xs ys refl h in
    (ap u16 (sym (from_be_bytes-u16 m p) ∙ ap from_be_bytes e ∙ from_be_bytes-u16 n q), r)
encode_field-inj (u32 m) (u32 n) xs ys k p q h =
    let (e, r) = append-inj (to_be_bytes 4 m) (to_be_bytes 4 n) xs ys refl h in
    (ap u32 (sym (from_be_bytes-u32 m p) ∙ ap from_be_bytes e ∙ from_be_bytes-u32 n q), r)
encode_field-inj (u64 m) (u64 n) xs ys k p q h =
    let (e, r) = append-inj (to_be_bytes 8 m) (to_be_bytes 8 n) xs ys refl h in
    (ap u64 (sym (from_be_bytes-u64 m p) ∙ ap from_be_bytes e ∙ from_be_bytes-u64 n q), r)
encode_field-inj (bytes v) (bytes w) xs ys k p q h =
    let (e, r) =
      append-inj (to_be_bytes 4 (length v)) (to_be_bytes 4 (length w)) (v ++ xs) (w ++ ys) refl (
        sym (append_assoc (to_be_bytes 4 (length v)) v xs)
        ∙ h
        ∙ append_assoc (to_be_bytes 4 (length w)) w ys) in
    let size = sym (from_be_bytes-u32 _ p) ∙ ap from_be_bytes e ∙ from_be_bytes-u32 _ q in
    let (e', r') = append-inj v w xs ys size r in (ap bytes e', r')
encode_field-inj f g xs ys k p q h = elim k [ ]

encode-inj :
    (fs gs : List Field)
    → SameShape fs gs
    → All Fits fs
    → All Fits gs
    → encode fs ≡ encode gs
    → fs ≡ gs
encode-inj [] [] k p q h = refl
encode-inj (f ∷ fs) (g ∷ gs) k p q h =
    let (e, r) = encode_field-inj f g (encode fs) (encode gs) k.0 p.0 q.0 h in
    ap₂ ◌∷◌ e (encode-inj fs gs k.1 p.1 q.1 r)
encode-inj [] (g ∷ gs) k p q h = elim k [ ]
encode-inj (f ∷ fs) [] k p q h = elim k [ ]

-- The numbers among the fields are in range; the transcript itself checks the byte strings.
abbrev pub NumberFits : Field → Type 0
NumberFits (u16 n) = n < 2 ^ 16
NumberFits (u32 n) = n < 2 ^ 32
NumberFits (u64 n) = n < 2 ^ 64
NumberFits (bytes v) = Unit {0}

All-Fits : (fs : List Field) → All SizeFits fs → All NumberFits fs → All Fits fs
All-Fits [] s n = tt
All-Fits (u16 m ∷ fs) s n = (n.0, All-Fits fs s.1 n.1)
All-Fits (u32 m ∷ fs) s n = (n.0, All-Fits fs s.1 n.1)
All-Fits (u64 m ∷ fs) s n = (n.0, All-Fits fs s.1 n.1)
All-Fits (bytes v ∷ fs) s n = (s.0, All-Fits fs s.1 n.1)

-- Two sequences of appends of the same kinds that end in one transcript appended the same values.
pub append_all-inj :
    (fs gs : List Field) (t : Bytes)
    → SameShape fs gs
    → All NumberFits fs
    → All NumberFits gs
    → append_all [] fs ≡ ok t
    → append_all [] gs ≡ ok t
    → fs ≡ gs
append_all-inj fs gs t k p q hf hg =
    let (ef, sf) = append_all_sound [] t fs hf in
    let (eg, sg) = append_all_sound [] t gs hg in
    encode-inj fs gs k (All-Fits fs sf p) (All-Fits gs sg q) (sym ef ∙ eg)

-- A transcript is within the protocol's bound.
length-append_field :
    (t t' : Bytes) (f : Field) → append_field t f ≡ ok t' → length t' ≤ max_transcript_bytes
length-append_field t t' f h = (append_field_sound t t' f h).1

-- Whatever follows, the first values are equal.
pub append_all-head :
    (f g : Field) (fs gs : List Field) (t : Bytes)
    → SameKind f g
    → All NumberFits (f ∷ fs)
    → All NumberFits (g ∷ gs)
    → append_all [] (f ∷ fs) ≡ ok t
    → append_all [] (g ∷ gs) ≡ ok t
    → f ≡ g
append_all-head f g fs gs t k p q hf hg =
    let (ef, sf) = append_all_sound [] t (f ∷ fs) hf in
    let (eg, sg) = append_all_sound [] t (g ∷ gs) hg in
    (encode_field-inj f g (encode fs) (encode gs) k (All-Fits (f ∷ fs) sf p).0
      (All-Fits (g ∷ gs) sg q).0 (sym ef ∙ eg)).0
