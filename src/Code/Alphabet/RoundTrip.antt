-- ===== src/Code/Alphabet/RoundTrip.antt =====
-- crates/code/src/alphabet.rs: lemmas on encoding and decoding.
use envshare.Prelude.{
  ℕ, ◌+◌, ◌-◌, ◌*◌, ◌/◌, ◌%◌, ◌^◌, ◌<◌, ◌≡◌, refl, ap, ap₂, ◌∙◌, List, [], ◌∷◌, arith, All, length,
  Bytes, IsByte,
}
use envshare.Code.Alphabet.{drain, encode_loop, decode_loop, encode_secret, decode_secret}

-- The decoder holds `p`, the encoder `acc` with `bits` bits left of the last byte: the decoder has
-- the top bits of that byte.
abbrev Synced : ℕ → ℕ → ℕ → Type 0
Synced bits acc p = p % 2 ^ (8 - bits) ≡ acc % 256 / 2 ^ bits

mutual
  unfolding drain encode_loop decode_loop

  from_0 :
      (s : Bytes) (acc p : ℕ)
      → All IsByte s
      → (8 * length s) % 5 ≡ 0
      → decode_loop (encode_loop s acc 0) p 0 ≡ s
  from_0 [] acc p h n = refl
  from_0 (b ∷ s) acc p h n =
      from_3 s _ _ h.1 (omega arith) (omega arith) ∙ ap (λ (x : ℕ). x ∷ s) (omega arith)

  from_3 :
      (s : Bytes) (acc p : ℕ)
      → All IsByte s
      → (8 * length s + 3) % 5 ≡ 0
      → Synced 3 acc p
      → decode_loop (encode_loop s acc 3) p 5 ≡ (acc % 256) ∷ s
  from_3 [] acc p h n y = absurd (omega arith)
  from_3 (b ∷ s) acc p h n y =
      ap₂ ◌∷◌ (omega arith)
        (from_1 s _ _ h.1 (omega arith) (omega arith) ∙ ap (λ (x : ℕ). x ∷ s) (omega arith))

  from_1 :
      (s : Bytes) (acc p : ℕ)
      → All IsByte s
      → (8 * length s + 1) % 5 ≡ 0
      → Synced 1 acc p
      → decode_loop (encode_loop s acc 1) p 7 ≡ (acc % 256) ∷ s
  from_1 [] acc p h n y = absurd (omega arith)
  from_1 (b ∷ s) acc p h n y =
      ap₂ ◌∷◌ (omega arith)
        (from_4 s _ _ h.1 (omega arith) (omega arith) ∙ ap (λ (x : ℕ). x ∷ s) (omega arith))

  from_4 :
      (s : Bytes) (acc p : ℕ)
      → All IsByte s
      → (8 * length s + 4) % 5 ≡ 0
      → Synced 4 acc p
      → decode_loop (encode_loop s acc 4) p 4 ≡ (acc % 256) ∷ s
  from_4 [] acc p h n y = absurd (omega arith)
  from_4 (b ∷ s) acc p h n y =
      ap₂ ◌∷◌ (omega arith)
        (from_2 s _ _ h.1 (omega arith) (omega arith) ∙ ap (λ (x : ℕ). x ∷ s) (omega arith))

  from_2 :
      (s : Bytes) (acc p : ℕ)
      → All IsByte s
      → (8 * length s + 2) % 5 ≡ 0
      → Synced 2 acc p
      → decode_loop (encode_loop s acc 2) p 6 ≡ (acc % 256) ∷ s
  from_2 [] acc p h n y = absurd (omega arith)
  from_2 (b ∷ s) acc p h n y =
      ap₂ ◌∷◌ (omega arith) (ap₂ ◌∷◌ (omega arith) (from_0 s _ _ h.1 (omega arith)))

-- The 32 symbols of a secret of 20 bytes decode to it.
pub decode_secret-encode_secret :
    (secret : Bytes)
    → length secret ≡ 20
    → All IsByte secret
    → decode_secret (encode_secret secret) ≡ secret
unfolding decode_secret encode_secret
decode_secret-encode_secret secret n h = from_0 secret 0 0 h (omega arith)

abbrev IsSymbol : ℕ → Type 0
IsSymbol v = v < 32

-- Named for the bits that the decoder has left over; the encoder has seen the bytes written so far.
mutual
  unfolding drain encode_loop decode_loop

  to_0 :
      (s : List ℕ) (acc p : ℕ)
      → All IsSymbol s
      → (5 * length s) % 8 ≡ 0
      → encode_loop (decode_loop s p 0) acc 0 ≡ s
  to_0 [] acc p h n = refl
  to_0 (v ∷ s) acc p h n = to_5 s _ _ h.1 (omega arith) ∙ ap₂ ◌∷◌ (omega arith) refl

  to_5 :
      (s : List ℕ) (acc p : ℕ)
      → All IsSymbol s
      → (5 * length s + 5) % 8 ≡ 0
      → encode_loop (decode_loop s p 5) acc 0 ≡ (p % 32) ∷ s
  to_5 [] acc p h n = absurd (omega arith)
  to_5 (v ∷ s) acc p h n =
      ap₂ ◌∷◌ (omega arith) (to_2 s _ _ h.1 (omega arith) ∙ ap₂ ◌∷◌ (omega arith) refl)

  to_2 :
      (s : List ℕ) (acc p : ℕ)
      → All IsSymbol s
      → (5 * length s + 2) % 8 ≡ 0
      → encode_loop (decode_loop s p 2) acc 3 ≡ (acc % 8 * 4 + p % 4) ∷ s
  to_2 [] acc p h n = absurd (omega arith)
  to_2 (v ∷ s) acc p h n =
      to_7 s _ _ h.1 (omega arith) ∙ ap₂ ◌∷◌ (omega arith) (ap₂ ◌∷◌ (omega arith) refl)

  to_7 :
      (s : List ℕ) (acc p : ℕ)
      → All IsSymbol s
      → (5 * length s + 7) % 8 ≡ 0
      → encode_loop (decode_loop s p 7) acc 3 ≡ (acc % 8 * 4 + p % 128 / 32) ∷ (p % 32) ∷ s
  to_7 [] acc p h n = absurd (omega arith)
  to_7 (v ∷ s) acc p h n =
      ap₂ ◌∷◌ (omega arith)
        (ap₂ ◌∷◌ (omega arith) (to_4 s _ _ h.1 (omega arith) ∙ ap₂ ◌∷◌ (omega arith) refl))

  to_4 :
      (s : List ℕ) (acc p : ℕ)
      → All IsSymbol s
      → (5 * length s + 4) % 8 ≡ 0
      → encode_loop (decode_loop s p 4) acc 1 ≡ (acc % 2 * 16 + p % 16) ∷ s
  to_4 [] acc p h n = absurd (omega arith)
  to_4 (v ∷ s) acc p h n =
      ap₂ ◌∷◌ (omega arith) (to_1 s _ _ h.1 (omega arith) ∙ ap₂ ◌∷◌ (omega arith) refl)

  to_1 :
      (s : List ℕ) (acc p : ℕ)
      → All IsSymbol s
      → (5 * length s + 1) % 8 ≡ 0
      → encode_loop (decode_loop s p 1) acc 4 ≡ (acc % 16 * 2 + p % 2) ∷ s
  to_1 [] acc p h n = absurd (omega arith)
  to_1 (v ∷ s) acc p h n =
      to_6 s _ _ h.1 (omega arith) ∙ ap₂ ◌∷◌ (omega arith) (ap₂ ◌∷◌ (omega arith) refl)

  to_6 :
      (s : List ℕ) (acc p : ℕ)
      → All IsSymbol s
      → (5 * length s + 6) % 8 ≡ 0
      → encode_loop (decode_loop s p 6) acc 4 ≡ (acc % 16 * 2 + p % 64 / 32) ∷ (p % 32) ∷ s
  to_6 [] acc p h n = absurd (omega arith)
  to_6 (v ∷ s) acc p h n =
      ap₂ ◌∷◌ (omega arith)
        (ap₂ ◌∷◌ (omega arith) (to_3 s _ _ h.1 (omega arith) ∙ ap₂ ◌∷◌ (omega arith) refl))

  to_3 :
      (s : List ℕ) (acc p : ℕ)
      → All IsSymbol s
      → (5 * length s + 3) % 8 ≡ 0
      → encode_loop (decode_loop s p 3) acc 2 ≡ (acc % 4 * 8 + p % 8) ∷ s
  to_3 [] acc p h n = absurd (omega arith)
  to_3 (v ∷ s) acc p h n =
      ap₂ ◌∷◌ (omega arith) (ap₂ ◌∷◌ (omega arith) (to_0 s _ _ h.1 (omega arith)))

-- 32 symbols are those of the secret that they decode to, so no secret has two encodings.
pub encode_secret-decode_secret :
    (symbols : List ℕ)
    → length symbols ≡ 32
    → All IsSymbol symbols
    → encode_secret (decode_secret symbols) ≡ symbols
unfolding decode_secret encode_secret
encode_secret-decode_secret symbols n h = to_0 symbols 0 0 h (omega arith)
