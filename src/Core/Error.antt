-- ===== src/Core/Error.antt =====
-- `TpxError` of crates/tpx-core/src/types.rs, and `Result` over it with `?` as its bind.
-- Keys are texts as their UTF-8 bytes; fixed messages are native strings.
use orthos_i_dart_tpx.Base.{ℕ, ◌≡◌, ◌⊎◌, inl, inr, refl, String, List}

-- What the standard library reports: a read past the end, or an error of the system by its number.
pub data IoError : Type 0 where
  unexpected_eof : IoError
  os_error : ℕ → IoError

pub data TpxError : Type 0 where
  invalid_magic : List ℕ → List ℕ → TpxError
  unsupported_version : ℕ → TpxError
  checksum_mismatch : ℕ → ℕ → TpxError
  chunk_crc_mismatch : ℕ → ℕ → ℕ → TpxError
  invalid_end_magic : List ℕ → TpxError
  key_not_found : List ℕ → TpxError
  version_not_found : List ℕ → ℕ → TpxError
  invalid_dtype : ℕ → TpxError
  invalid_filter : ℕ → TpxError
  invalid_codec : ℕ → TpxError
  invalid_attr_type : ℕ → TpxError
  attr_value_too_large : ℕ → TpxError
  buffer_too_small : String → ℕ → ℕ → TpxError
  decompress_length_mismatch : ℕ → ℕ → TpxError
  codec_error : String → TpxError
  shard_out_of_range : ℕ → TpxError
  already_locked : TpxError
  read_only_mode : TpxError
  unsupported_feature : String → TpxError
  io : IoError → TpxError
  corrupt_archive : String → TpxError

pub data Result {ℓ} (A : Type ℓ) : Type ℓ where
  ok : A → Result A
  err : TpxError → Result A

infixl 5 ◌>>=◌
abbrev pub ◌>>=◌ {ℓ κ} : {A : Type ℓ} {B : Type κ} → Result A → (A → Result B) → Result B
err e >>= next = err e
ok a >>= next = next a

-- A chain that ends well has a first part that does.
pub >>=-eq-ok {ℓ κ} :
    {A : Type ℓ} {B : Type κ} (first : Result A) (next : A → Result B) {last : B}
    → (first >>= next) ≡ ok last
    → (a : A) × (first ≡ ok a) × (next a ≡ ok last)
>>=-eq-ok (err e) next h = cc
>>=-eq-ok (ok a) next h = (a, refl, h)

pub Result-cases {ℓ} :
    {A : Type ℓ} (r : Result A) → ((a : A) × (r ≡ ok a)) ⊎ ((e : TpxError) × (r ≡ err e))
Result-cases (ok a) = inl (a, refl)
Result-cases (err e) = inr (e, refl)

pub not_ok {ℓ} : {A : Type ℓ} {e : TpxError} {a : A} → err e ≡ ok a → ⊥
not_ok h = cc

pub ok_pair {ℓ κ} :
    {A : Type ℓ} {B : Type κ} {a c : A} {b d : B}
    → ◌≡◌ {A = Result (A × B)} (ok (a, b)) (ok (c, d))
    → (a ≡ c) × (b ≡ d)
ok_pair h = (cc, cc)

pub ok_inj {ℓ} : {A : Type ℓ} {a b : A} → ok a ≡ ok b → a ≡ b
ok_inj h = cc
