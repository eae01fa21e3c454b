-- ===== src/Core/Cursor.antt =====
-- `std::io::Cursor` with the byteorder reads and writes that the crates use. A cursor is the
-- list of the bytes that are still to be read; a writer appends.
use orthos_i_dart_tpx.Base.{
  ℕ, zero, suc, ◌+◌, ◌*◌, ◌/◌, ◌%◌, ◌^◌, ◌<◌, ◌≡◌, refl, ap, List, [], ◌∷◌, ◌++◌, length, All,
  IsByte, arith, take, drop, ltb, if◌then◌else◌, take-append_len, take-append-drop, All-append_left,
  All-append_right, length-take, inl, inr, drop-append_len, length-append,
}
use orthos_i_dart_tpx.Core.Error.{Result, Result-cases, not_ok, ok, err, io, unexpected_eof}
use native.Mathlib.Nat.{pow-suc}

abbrev pub Cursor : Type 0 → Type 0
Cursor A = List ℕ → Result (A × List ℕ)

-- `?` after a read. A read's own failure ends the chain.
infixl 5 ◌>>=◌
abbrev pub ◌>>=◌ : {A B : Type 0} → Cursor A → (A → Cursor B) → Cursor B
◌>>=◌ m f bs = elim (m bs) [ ok (a, rest) ↦ f a rest | err e ↦ err e ]

abbrev pub pure : {A : Type 0} → A → Cursor A
pure a bs = ok (a, bs)

abbrev pub lift : {A : Type 0} → Result A → Cursor A
lift (ok a) bs = ok (a, bs)
lift (err e) bs = err e

-- `write_uN::<LittleEndian>`: `w` bytes, the lowest first.
unfoldable pub write_le : ℕ → ℕ → List ℕ
write_le zero n = []
write_le (suc w) n = n % 256 ∷ write_le w (n / 256)

-- `read_uN::<LittleEndian>`.
unfoldable pub read_le : ℕ → Cursor ℕ
read_le zero bs = ok (0, bs)
read_le (suc w) [] = err (io unexpected_eof)
read_le (suc w) (b ∷ bs) = elim (read_le w bs) [
  | ok (n, rest) ↦ ok (b + 256 * n, rest)
  | err e ↦ err e
]

-- `read_exact` into a buffer of `n` bytes.
unfoldable pub read_exact : ℕ → Cursor (List ℕ)
read_exact n bs = if ltb (length bs) n then err (io unexpected_eof) else ok (take n bs, drop n bs)

pub length-write_le : (w n : ℕ) → length (write_le w n) ≡ w
unfolding write_le
length-write_le zero n = refl
length-write_le (suc w) n = ap suc (length-write_le w (n / 256))

pub write_le-IsByte : (w n : ℕ) → All IsByte (write_le w n)
unfolding write_le
write_le-IsByte zero n = tt
write_le-IsByte (suc w) n = (omega arith, write_le-IsByte w (n / 256))

-- A number that fits `w` bytes is read back, and the bytes behind it are left.
pub read_le-write_le :
    (w n : ℕ) (rest : List ℕ) → n < 256 ^ w → read_le w (write_le w n ++ rest) ≡ ok (n, rest)
unfolding read_le write_le
read_le-write_le zero n rest h = ground arith
read_le-write_le (suc w) n rest h =
    ground (arith, pow-suc 256 w, read_le-write_le w (n / 256) rest (omega (arith, pow-suc 256 w)))

pub read_exact-append :
    (n : ℕ) (xs rest : List ℕ) → length xs ≡ n → read_exact n (xs ++ rest) ≡ ok (xs, rest)
unfolding read_exact
read_exact-append n xs rest h =
    ground (arith, length-append xs rest, take-append_len n xs rest h, drop-append_len n xs rest h)

module _ {A : Type 0} (f : ℕ → Cursor A) where
  -- A chain that starts with a read goes on with the number that was written.
  pub read_le_then :
      (w n : ℕ) (rest : List ℕ) → n < 256 ^ w → (read_le w >>= f) (write_le w n ++ rest) ≡ f n rest
  read_le_then w n rest h = rw (read_le-write_le w n rest h, ◌>>=◌)

module _ {A : Type 0} (f : List ℕ → Cursor A) where
  pub read_exact_then :
      (n : ℕ) (xs rest : List ℕ) → length xs ≡ n → (read_exact n >>= f) (xs ++ rest) ≡ f xs rest
  read_exact_then n xs rest h = rw (read_exact-append n xs rest h, ◌>>=◌)

-- What a read accepts is what a write of its number makes.
pub read_le_inv :
    (w : ℕ) (bs : List ℕ) (n : ℕ) (rest : List ℕ)
    → All IsByte bs
    → read_le w bs ≡ ok (n, rest)
    → (n < 256 ^ w) × (bs ≡ write_le w n ++ rest)
unfolding read_le write_le
read_le_inv zero bs n rest v h = ground arith
read_le_inv (suc w) [] n rest v h = cc
read_le_inv (suc w) (b ∷ bs) n rest (vb, vs) h = elim (Result-cases (read_le w bs)) [
  | inl ((m, r), e) ↦ ground (arith, e, pow-suc 256 w, read_le_inv w bs m r vs e)
  | inr (x, e) ↦ cc
]

pub read_exact_inv :
    (n : ℕ) (bs xs rest : List ℕ)
    → read_exact n bs ≡ ok (xs, rest)
    → (length xs ≡ n) × (bs ≡ xs ++ rest)
unfolding read_exact
read_exact_inv n bs xs rest h = ground (arith, take-append-drop n bs, length-take n bs)

-- A chain that succeeded has read a number, or a block of bytes, from the front; the rest of the
-- proof is a function of them.
module _ {A C : Type 0} {r : A × List ℕ} where
  pub read_le_split :
      (w : ℕ) (f : ℕ → Cursor A) (bs : List ℕ)
      → All IsByte bs
      → (read_le w >>= f) bs ≡ ok r
      → ((n : ℕ) (rest : List ℕ)
          → n < 256 ^ w
          → bs ≡ write_le w n ++ rest
          → All IsByte rest
          → f n rest ≡ ok r
          → C)
      → C
  read_le_split w f bs v h k = elim (Result-cases (read_le w bs)) [
    | inl ((n, rest), e) ↦
        let (lt, eb) = read_le_inv w bs n rest v e in
        k n rest lt eb (All-append_right IsByte (write_le w n) rest (rw eb at v))
          (rw (e, ◌>>=◌) at h)
    | inr (x, e) ↦ absurd (not_ok (rw (e, ◌>>=◌) at h))
  ]

  pub read_exact_split :
      (w : ℕ) (f : List ℕ → Cursor A) (bs : List ℕ)
      → All IsByte bs
      → (read_exact w >>= f) bs ≡ ok r
      → ((xs rest : List ℕ)
          → length xs ≡ w
          → bs ≡ xs ++ rest
          → All IsByte xs
          → All IsByte rest
          → f xs rest ≡ ok r
          → C)
      → C
  read_exact_split w f bs v h k = elim (Result-cases (read_exact w bs)) [
    | inl ((xs, rest), e) ↦
        let (lt, eb) = read_exact_inv w bs xs rest e in
        k xs rest lt eb (All-append_left IsByte xs rest (rw eb at v))
          (All-append_right IsByte xs rest (rw eb at v)) (rw (e, ◌>>=◌) at h)
    | inr (x, e) ↦ absurd (not_ok (rw (e, ◌>>=◌) at h))
  ]
