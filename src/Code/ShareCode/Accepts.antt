-- ===== src/Code/ShareCode/Accepts.antt =====
-- crates/code/src/lib.rs: the inputs that the parser accepts.
use envshare.Prelude.{
  ℕ, ◌≡◌, refl, ap, ap₂, sym, ◌∙◌, ◌↔◌, true, ◌&&◌, some, List, [], ◌∷◌, ◌++◌, map, map-append,
  arith, ◌==◌, ==_iff, get_or, take, drop, length, All, all, all-take-drop, length-append,
  length-map, length-take, length-drop, map-take, map-drop, append-inj, take-append-last_two, Bytes,
  IsByte, bytes_of, bytes_eq, bytes_eq_iff, bytes_eq_refl, ok, guard, >>=-eq-ok, ok_or-eq-ok,
  guard-bind-eq-ok, ok-inj, guard-eq-ok, &&_iff,
}
use mathlib.Core.Path.{◌≡⟨◌⟩◌, ◌∎}
use envshare.Code.Alphabet.{decode_symbol, to_ascii_uppercase, encode_secret, decode_secret}
use envshare.Code.Alphabet.Ranges.{
  IsSymbol, encode_secret_range, decode_secret_range, decode_symbol-IsSymbol,
  decode_symbol-to_ascii_uppercase, decode_symbol-ascii,
}
use envshare.Code.Alphabet.RoundTrip.{decode_secret-encode_secret, encode_secret-decode_secret}
use envshare.Code.ShareCode.{
  normalize, decode_symbols, invalid, normalized_symbols, checksum_symbols, checksum_matches,
  decode_body, from_str,
}
use envshare.Code.ShareCode.Parser.{
  without_dashes, is_ascii, normalize_of_ascii, normalize-eq-ok, decode_symbols→eq,
  decode_symbols_of_eq,
}

-- A capability is an array of 20 bytes.
pub record IsSecret (secret : Bytes) : Type 0 where
  pub size : length secret ≡ 20
  pub bytes : All IsByte secret

abbrev pub values : (Bytes → Bytes) → Bytes → List ℕ
values sha256 secret = encode_secret secret ++ checksum_symbols sha256 secret

-- The input, without its dashes, is the prefix in any case and then letters that have the values of
-- the secret and of its checksum.
pub record Spells (sha256 : Bytes → Bytes) (input secret : Bytes) : Type 0 where
  pub prefix : map to_ascii_uppercase (take 4 (without_dashes input)) ≡ bytes_of "ESH1"
  pub letters : map decode_symbol (drop 4 (without_dashes input)) ≡ map some (values sha256 secret)

All-IsSymbol : (xs : Bytes) (vs : List ℕ) → map decode_symbol xs ≡ map some vs → All IsSymbol vs
All-IsSymbol xs [] h = tt
All-IsSymbol (x ∷ xs) (v ∷ vs) h =
    (decode_symbol-IsSymbol x v (ground arith), All-IsSymbol xs vs (ground arith))
All-IsSymbol [] (v ∷ vs) h = cc

map-some-inj : (xs ys : List ℕ) → map some xs ≡ map some ys → xs ≡ ys
map-some-inj [] [] h = refl
map-some-inj (x ∷ xs) (y ∷ ys) h = ground (arith, map-some-inj xs ys)
map-some-inj [] (y ∷ ys) h = cc
map-some-inj (x ∷ xs) [] h = cc

map-decode-upper :
    (xs : Bytes) → map decode_symbol (map to_ascii_uppercase xs) ≡ map decode_symbol xs
map-decode-upper [] = refl
map-decode-upper (x ∷ xs) = ap₂ ◌∷◌ (decode_symbol-to_ascii_uppercase x) (map-decode-upper xs)

module _ (sha256 : Bytes → Bytes) where
  record Parts (encoded secret : Bytes) : Type 0 where
    vs : List ℕ
    first : ℕ
    second : ℕ
    decoded : decode_symbols (take 32 encoded) ≡ ok vs
    at_32 : decode_symbol (get_or encoded 32 0) ≡ some first
    at_33 : decode_symbol (get_or encoded 33 0) ≡ some second
    checked : checksum_symbols sha256 (decode_secret vs) ≡ first ∷ second ∷ []
    result : decode_secret vs ≡ secret

  decode_body-Parts :
      (encoded secret : Bytes) → decode_body sha256 encoded ≡ ok secret → Parts encoded secret
  unfolding decode_body checksum_matches
  decode_body-Parts encoded secret h =
      let m = decode_symbols (take 32 encoded) in
      let p = >>=-eq-ok m _ h in
      let (vs, decoded, h1) = p in
      let q = ok_or-eq-ok (decode_symbol (get_or encoded 32 0)) _ _ h1 in
      let (first, at_32, h2) = q in
      let r = ok_or-eq-ok (decode_symbol (get_or encoded 33 0)) _ _ h2 in
      let (second, at_33, h3) = r in
      let g = >>=-eq-ok (guard _ invalid) _ h3 in
      let (u, tested, h4) = g in
      record {
        vs = vs;
        first = first;
        second = second;
        decoded = decoded;
        at_32 = at_32;
        at_33 = at_33;
        checked = (bytes_eq_iff _ _).0 (guard-eq-ok _ _ tested);
        result = ok-inj h4;
      }

  sound :
      (encoded secret : Bytes)
      → length encoded ≡ 34
      → Parts encoded secret
      → IsSecret secret × (map decode_symbol encoded ≡ map some (values sha256 secret))
  sound encoded secret n p = (s, eq)
    where
      open p use {vs, first, second, decoded, at_32, at_33, checked, result}

      eqs : map decode_symbol (take 32 encoded) ≡ map some vs
      eqs = decode_symbols→eq (take 32 encoded) vs decoded

      n_vs : length vs ≡ 32
      n_vs = omega (
        arith,
        ap length eqs,
        length-map {0, 0} (take 32 encoded) decode_symbol,
        length-map {0, 0} vs (λ (v : ℕ). some v),
        length-take 32 encoded,
      )

      same : encode_secret secret ≡ vs
      same = rw (← result) (encode_secret-decode_secret vs n_vs (All-IsSymbol _ vs eqs))

      s : IsSecret secret
      s = rw (← result) (record {
        size = (decode_secret_range vs n_vs).0;
        bytes = (decode_secret_range vs n_vs).1;
      })

      eq : map decode_symbol encoded ≡ map some (values sha256 secret)
      eq =
          map decode_symbol encoded
          ≡⟨ ap (map decode_symbol) (sym (take-append-last_two 32 0 encoded n)) ⟩
            map decode_symbol (take 32 encoded ++ get_or encoded 32 0 ∷ get_or encoded 33 0 ∷ [])
          ≡⟨ map-append decode_symbol (take 32 encoded) _ ⟩
            map decode_symbol (take 32 encoded)
            ++ decode_symbol (get_or encoded 32 0) ∷ decode_symbol (get_or encoded 33 0) ∷ []
          ≡⟨ ap₂ ◌++◌ eqs (ap₂ (λ x y. x ∷ y ∷ []) at_32 at_33)
            ∙ sym (map-append some vs (first ∷ second ∷ []))
            ∙ ap (map some)
                (ap₂ ◌++◌ (sym same) (sym checked ∙ ap (checksum_symbols sha256) result)) ⟩
            map some (values sha256 secret) ∎

  decode_body_sound :
      (encoded secret : Bytes)
      → length encoded ≡ 34
      → decode_body sha256 encoded ≡ ok secret
      → IsSecret secret × (map decode_symbol encoded ≡ map some (values sha256 secret))
  decode_body_sound encoded secret n h = sound encoded secret n (decode_body-Parts encoded secret h)

  -- The three reads of a body that has the right values.
  reads :
      (encoded : Bytes) (vs : List ℕ) (c d : ℕ)
      → length vs ≡ 32
      → map decode_symbol encoded ≡ map some (vs ++ c ∷ d ∷ [])
      → (decode_symbols (take 32 encoded) ≡ ok vs)
        × (decode_symbol (get_or encoded 32 0) ≡ some c)
        × (decode_symbol (get_or encoded 33 0) ≡ some d)
  reads encoded vs c d m h = (decode_symbols_of_eq _ vs split.0, cc split.1, cc split.1)
    where
      n : length encoded ≡ 34
      n = omega (
        arith,
        ap length h,
        length-map {0, 0} encoded decode_symbol,
        length-map {0, 0} (vs ++ c ∷ d ∷ []) (λ (v : ℕ). some v),
        length-append vs (c ∷ d ∷ []),
      )

      split :
          (map decode_symbol (take 32 encoded) ≡ map some vs)
          × (decode_symbol (get_or encoded 32 0) ∷ decode_symbol (get_or encoded 33 0) ∷ []
              ≡ some c ∷ some d ∷ [])
      split =
          append-inj _ _ _ _
            (omega (
              arith,
              length-map {0, 0} (take 32 encoded) decode_symbol,
              length-map {0, 0} vs (λ (v : ℕ). some v),
              length-take 32 encoded,
              n,
              m,
            ))
            (sym (map-append decode_symbol (take 32 encoded) _)
              ∙ ap (map decode_symbol) (take-append-last_two 32 0 encoded n)
              ∙ h
              ∙ map-append some vs (c ∷ d ∷ []))

  checksum_symbols-two :
      (secret : Bytes) → (c : ℕ) × (d : ℕ) × (checksum_symbols sha256 secret ≡ c ∷ d ∷ [])
  unfolding checksum_symbols
  checksum_symbols-two secret = (_, _, refl)

  decode_body_complete :
      (encoded secret : Bytes)
      → IsSecret secret
      → map decode_symbol encoded ≡ map some (values sha256 secret)
      → decode_body sha256 encoded ≡ ok secret
  unfolding decode_body checksum_matches
  decode_body_complete encoded secret s h =
      let (c, d, two) = checksum_symbols-two secret in
      let (r, at_32, at_33) =
        reads encoded (encode_secret secret) c d (encode_secret_range secret s.size).0
          (rw two at h) in
      rw (
        r,
        decode_secret-encode_secret secret s.size s.bytes,
        at_32,
        at_33,
        two,
        bytes_eq_refl (c ∷ d ∷ []),
      )

  -- All letters of an input that spells a secret are ASCII.
  ascii_of_values :
      (xs : Bytes) (vs : List ℕ) → map decode_symbol xs ≡ map some vs → all is_ascii xs ≡ true
  ascii_of_values [] vs h = refl
  ascii_of_values (x ∷ xs) (v ∷ vs) h =
      ground (arith, decode_symbol-ascii x v, ascii_of_values xs vs)
  ascii_of_values (x ∷ xs) [] h = cc

  ascii_of_upper :
      (xs ys : Bytes)
      → map to_ascii_uppercase xs ≡ ys
      → all is_ascii ys ≡ true
      → all is_ascii xs ≡ true
  unfolding to_ascii_uppercase
  ascii_of_upper [] ys h a = refl
  ascii_of_upper (x ∷ xs) (y ∷ ys) h a = ground (arith, ascii_of_upper xs ys)
  ascii_of_upper (x ∷ xs) [] h a = cc

  length-values : (secret : Bytes) → IsSecret secret → length (values sha256 secret) ≡ 34
  unfolding checksum_symbols
  length-values secret s = omega (
    arith,
    length-append (encode_secret secret) (checksum_symbols sha256 secret),
    (encode_secret_range secret s.size).0,
  )

  from_str_sound :
      (input secret : Bytes)
      → from_str sha256 input ≡ ok secret
      → IsSecret secret × Spells sha256 input secret
  unfolding from_str
  from_str_sound input secret h =
      let (normalized, e, h1) = >>=-eq-ok (normalize [] input) _ h in
      let (t, h2) =
        guard-bind-eq-ok
          (length normalized == normalized_symbols
            && bytes_eq (take 4 normalized) (bytes_of "ESH1"))
          _ _ h1 in
      let (n, p) = (&&_iff (length normalized == normalized_symbols) _).0 t in
      let m : length normalized ≡ 38 = (==_iff _ _).0 n in
      let is = normalize-eq-ok input normalized e in
      let b =
        decode_body_sound (drop 4 normalized) secret (omega (arith, length-drop 4 normalized)) h2 in
      (
        b.0,
        record {
          prefix = map-take to_ascii_uppercase 4 _ ∙ ap (take 4) (sym is) ∙ (bytes_eq_iff _ _).0 p;
          letters =
              sym (map-decode-upper (drop 4 (without_dashes input)))
              ∙ ap (map decode_symbol) (map-drop to_ascii_uppercase 4 _ ∙ ap (drop 4) (sym is))
              ∙ b.1;
        },
      )

  from_str_complete :
      (input secret : Bytes)
      → IsSecret secret
      → Spells sha256 input secret
      → from_str sha256 input ≡ ok secret
  unfolding from_str
  from_str_complete input secret s h =
      rw (normalize_of_ascii input ascii (omega (arith, size)), tested, body)
    where
      letters : Bytes
      letters = without_dashes input

      ascii : all is_ascii letters ≡ true
      ascii =
          all-take-drop is_ascii 4 letters (ascii_of_upper (take 4 letters) _ h.prefix refl)
            (ascii_of_values (drop 4 letters) _ h.letters)

      size : length letters ≡ 38
      size = omega (
        arith,
        ap length h.prefix,
        length-map {0, 0} (take 4 letters) to_ascii_uppercase,
        length-take 4 letters,
        ap length h.letters,
        length-map {0, 0} (drop 4 letters) decode_symbol,
        length-drop 4 letters,
        length-map {0, 0} (values sha256 secret) (λ (v : ℕ). some v),
        length-values secret s,
      )

      tested :
          (length (map to_ascii_uppercase letters) == normalized_symbols
            && bytes_eq (take 4 (map to_ascii_uppercase letters)) (bytes_of "ESH1"))
          ≡ true
      tested = (&&_iff _ _).1 (
        (==_iff _ _).1 (omega (arith, size, length-map {0, 0} letters to_ascii_uppercase)),
        (bytes_eq_iff _ _).1 (sym (map-take to_ascii_uppercase 4 letters) ∙ h.prefix),
      )

      body : decode_body sha256 (drop 4 (map to_ascii_uppercase letters)) ≡ ok secret
      body = decode_body_complete _ secret s (
          ap (map decode_symbol) (sym (map-drop to_ascii_uppercase 4 letters))
          ∙ map-decode-upper (drop 4 letters)
          ∙ h.letters)

  -- With a digest of 32 bytes, `from_str` returns a secret for an input exactly when the secret has
  -- 20 bytes and the input, less its dashes, is ESH1 in any case followed by letters that decode to
  -- the secret's symbols and its checksum, and nothing else.
  pub from_str_accepts :
      (input secret : Bytes)
      → (from_str sha256 input ≡ ok secret) ↔ (IsSecret secret × Spells sha256 input secret)
  from_str_accepts input secret =
      (from_str_sound input secret, λ h. from_str_complete input secret h.0 h.1)
