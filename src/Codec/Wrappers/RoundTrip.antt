-- ===== src/Codec/Wrappers/RoundTrip.antt =====
-- `Chimp128Codec` at the level of bytes: what `compress` made, `decompress` gives back.
use orthos_i_dart_tpx.Base.{
  ℕ, zero, suc, ◌+◌, ◌*◌, ◌/◌, ◌%◌, ◌^◌, ◌≤◌, ◌<◌, ◌≡◌, ◌⊎◌, ◌∙◌, refl, arith, ap, List, [], ◌∷◌,
  ◌++◌, length, take, drop, Option, none, some, All, IsByte, IsU64, All-take, All-drop, length-take,
  length-drop, take-append-drop, if◌then◌else◌, Option-cases, Bool-cases, inl, inr,
}
use orthos_i_dart_tpx.Core.Error.{ok, ◌>>=◌}
use orthos_i_dart_tpx.Core.Cursor.{write_le}
use orthos_i_dart_tpx.Core.DType.{DTypeId, float64, dtype_eq}
use orthos_i_dart_tpx.Filter.DeltaZigzag.{from_le}
use orthos_i_dart_tpx.Filter.DeltaZigzag.RoundTrip.{write_le-from_le, from_le-lt}
use orthos_i_dart_tpx.Codec.Chimp128.{Encoder, new_encoder, encode_f64, encode_f32, finish}
use orthos_i_dart_tpx.Codec.Chimp128.Decoder.{Decoder, new_decoder, decode_f64, decode_f32}
use orthos_i_dart_tpx.Codec.Chimp128.RoundTrip.{encode_all, decode_values, push, encode_all-Opens}
use orthos_i_dart_tpx.Codec.Wrappers.{
  sized, encode_elements, decode_elements, compress_chimp128, decompress_chimp128,
}

none_ne {ℓ} : {A : Type ℓ} {a : A} → none ≡ some a → ⊥
none_ne h = cc

nothing_inv : (xs : List ℕ) → ◌≡◌ {A = Option (List ℕ)} (some []) (some xs) → xs ≡ []
nothing_inv xs h = cc

push_inv :
    (x : ℕ) (o : Option (List ℕ)) (xs : List ℕ)
    → push x o ≡ some xs
    → (ys : List ℕ) × (xs ≡ x ∷ ys) × (o ≡ some ys)
unfolding push
push_inv x none xs h = absurd (none_ne h)
push_inv x (some ys) xs h = (ys, cc, refl)

-- The first round of decoding, from its result.
values_inv :
    (f : ℕ) (d : Decoder) (xs : List ℕ)
    → decode_values (suc f) d ≡ some xs
    → ((decode_f64 d ≡ none) × (xs ≡ []))
      ⊎ ((x : ℕ) × (d' : Decoder) × (ys : List ℕ) × (decode_f64 d ≡ some (x, d'))
          × (xs ≡ x ∷ ys)
          × (decode_values f d' ≡ some ys))
unfolding decode_values push
values_inv f d xs h = elim (Option-cases (decode_f64 d)) [
  | inl e ↦ inl (e, nothing_inv xs (rw (e, decode_values) at h))
  | inr ((x, d'), e) ↦
      let (ys, cons, rest) = push_inv x (decode_values f d') xs (rw (e, decode_values) at h) in
      inr (x, d', ys, e, cons, rest)
]

-- A codec of elements of `w` bytes, which the encoder sees as words of 64 bits.
module _ (put : ℕ → Encoder → Encoder) (next : Decoder → Option (ℕ × Decoder)) (w : ℕ)
    (up down : ℕ → ℕ) (put_up : (x : ℕ) (e : Encoder) → put x e ≡ encode_f64 (up x) e)
    (next_none : (d : Decoder) → decode_f64 d ≡ none → next d ≡ none)
    (next_some : (d d' : Decoder) (x : ℕ)
      → decode_f64 d ≡ some (x, d')
      → next d ≡ some (down x, d'))
    (down_up : (x : ℕ) → x < 256 ^ w → down (up x) ≡ x)
    (up_small : (x : ℕ) → x < 256 ^ w → up x < 2 ^ 64) where
  words : ℕ → List ℕ → List ℕ
  words zero bytes = []
  words (suc n) bytes = up (from_le (take w bytes)) ∷ words n (drop w bytes)

  unwords : List ℕ → List ℕ
  unwords [] = []
  unwords (x ∷ xs) = write_le w (down x) ++ unwords xs

  length-words : (n : ℕ) (bytes : List ℕ) → length (words n bytes) ≡ n
  unfolding words
  length-words zero bytes = refl
  length-words (suc n) bytes = ap suc (length-words n (drop w bytes))

  encode_elements-words :
      (n : ℕ) (bytes : List ℕ) (e : Encoder)
      → encode_elements put w n bytes e ≡ encode_all (words n bytes) e
  unfolding encode_elements encode_all words
  encode_elements-words zero bytes e = refl
  encode_elements-words (suc n) bytes e =
      rw (put_up (from_le (take w bytes)) e) (encode_elements-words n (drop w bytes) _)

  decode_elements-unwords :
      (f : ℕ) (xs : List ℕ) (d : Decoder)
      → length xs ≤ f
      → decode_values (suc f) d ≡ some xs
      → decode_elements next w f d ≡ unwords xs
  unfolding decode_elements unwords
  decode_elements-unwords zero [] d le h = refl
  decode_elements-unwords zero (x ∷ xs) d le h = absurd (omega arith)
  decode_elements-unwords (suc f) xs d le h = elim (values_inv (suc f) d xs h) [
    | inl (e, nil) ↦ rw (next_none d e, decode_elements, nil) refl
    | inr (x, d', ys, e, cons, h') ↦
        rw (next_some d d' x e, decode_elements, cons)
          (ap (◌++◌ (write_le w (down x)))
            (decode_elements-unwords f ys d' (omega (arith, ap length cons)) h'))
  ]

  front_fits :
      (n : ℕ) (bytes : List ℕ)
      → suc n * w ≡ length bytes
      → All IsByte bytes
      → (length (take w bytes) ≡ w)
        × (from_le (take w bytes) < 256 ^ w)
        × (n * w ≡ length (drop w bytes))
        × All IsByte (drop w bytes)
  front_fits n bytes e v =
      let size : suc n * w ≡ n * w + w = ground arith in
      let front : length (take w bytes) ≡ w = ground (arith, length-take w bytes, size) in
      (
        front,
        rw front at (from_le-lt (take w bytes) (All-take IsByte w bytes v)),
        ground (arith, length-drop w bytes, size),
        All-drop IsByte w bytes v,
      )

  words-IsU64 :
      (n : ℕ) (bytes : List ℕ) → n * w ≡ length bytes → All IsByte bytes → All IsU64 (words n bytes)
  unfolding words
  words-IsU64 zero bytes e v = tt
  words-IsU64 (suc n) bytes e v =
      let (front, fits, e', v') = front_fits n bytes e v in
      (up_small (from_le (take w bytes)) fits, words-IsU64 n (drop w bytes) e' v')

  unwords-words :
      (n : ℕ) (bytes : List ℕ)
      → n * w ≡ length bytes
      → All IsByte bytes
      → unwords (words n bytes) ≡ bytes
  unfolding words unwords
  unwords-words zero [] e v = refl
  unwords-words zero (b ∷ bs) e v = absurd (omega arith)
  unwords-words (suc n) bytes e v =
      let (front, fits, e', v') = front_fits n bytes e v in
      let same : write_le w (from_le (take w bytes)) ≡ take w bytes =
        rw front at (write_le-from_le (take w bytes) (All-take IsByte w bytes v)) in
      rw (down_up (from_le (take w bytes)) fits, unwords-words n (drop w bytes) e' v', same)
        (take-append-drop w bytes)

  elements_back :
      (n : ℕ) (bytes : List ℕ)
      → n * w ≡ length bytes
      → n < 2 ^ 32
      → All IsByte bytes
      → (new_decoder (finish (encode_elements put w n bytes new_encoder)) >>= λ d.
          sized (length bytes) (decode_elements next w d.total_count d))
        ≡ ok bytes
  unfolding sized
  elements_back n bytes e room v =
      let len = length-words n bytes in
      let o = encode_all-Opens (words n bytes) (words-IsU64 n bytes e v) (omega arith) in
      let back : decode_elements next w (length (words n bytes)) o.decoder ≡ bytes =
        decode_elements-unwords (length (words n bytes)) (words n bytes) o.decoder (omega arith)
          (o.decoded (suc (length (words n bytes))) (omega arith))
        ∙ unwords-words n bytes e v in
      rw (encode_elements-words n bytes new_encoder, o.is_new, o.total, back) (ground arith)

shift_none : (d : Decoder) → decode_f64 d ≡ none → decode_f32 d ≡ none
unfolding decode_f32
shift_none d e = rw e refl

shift_some :
    (d d' : Decoder) (x : ℕ)
    → decode_f64 d ≡ some (x, d')
    → decode_f32 d ≡ some (x / 2 ^ 32 % 2 ^ 32, d')
unfolding decode_f32
shift_some d d' x e = rw e refl

chimp_f64 :
    (n : ℕ) (bytes : List ℕ)
    → n * 8 ≡ length bytes
    → n < 2 ^ 32
    → All IsByte bytes
    → (new_decoder (finish (encode_elements encode_f64 8 n bytes new_encoder)) >>= λ d.
        sized (length bytes) (decode_elements decode_f64 8 d.total_count d))
      ≡ ok bytes
chimp_f64 =
    elements_back encode_f64 decode_f64 8 (λ x. x) (λ x. x) (λ x e. refl) (λ d e. e) (λ d d' x e. e)
      (λ x h. refl) (λ x h. h)

chimp_f32 :
    (n : ℕ) (bytes : List ℕ)
    → n * 4 ≡ length bytes
    → n < 2 ^ 32
    → All IsByte bytes
    → (new_decoder (finish (encode_elements encode_f32 4 n bytes new_encoder)) >>= λ d.
        sized (length bytes) (decode_elements decode_f32 4 d.total_count d))
      ≡ ok bytes
unfolding encode_f32
chimp_f32 =
    elements_back encode_f32 decode_f32 4 (λ x. x * 2 ^ 32 % 2 ^ 64) (λ x. x / 2 ^ 32 % 2 ^ 32)
      (λ x e. refl) shift_none shift_some (λ x h. omega arith) (λ x h. omega arith)

-- The bytes of an element as `Chimp128Codec` sees it.
abbrev pub element_width : DTypeId → ℕ
element_width dtype = if dtype_eq dtype float64 then 8 else 4

-- `Chimp128Codec`: for data of whole elements, of 8 bytes for Float64 and of 4 bytes for any other
-- type, and of fewer than 2 ^ 32 of them, decompressing what `compress` made, with the length of the
-- data as the expected length, gives the data back.
pub decompress-compress_chimp128 :
    (bytes : List ℕ) (dtype : DTypeId) (count : ℕ)
    → count * element_width dtype ≡ length bytes
    → count < 2 ^ 32
    → All IsByte bytes
    → (compress_chimp128 bytes dtype >>= λ packed. decompress_chimp128 packed (length bytes) dtype)
      ≡ ok bytes
unfolding compress_chimp128 decompress_chimp128
decompress-compress_chimp128 bytes dtype count whole room v =
    elim (Bool-cases (dtype_eq dtype float64)) [
      | inl wide ↦
          let n : length bytes / 8 ≡ count = ground arith in
          rw (wide, n) (chimp_f64 count bytes (ground arith) room v)
      | inr narrow ↦
          let n : length bytes / 4 ≡ count = ground arith in
          rw (narrow, n) (chimp_f32 count bytes (ground arith) room v)
    ]
