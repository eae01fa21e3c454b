-- ===== src/Codec/Chimp128/Zeros.antt =====
-- The counts of leading and trailing zeros, and the payload that is cut out between them.
use orthos_i_dart_tpx.Base.{
  ℕ, zero, suc, ◌+◌, ◌-◌, ◌*◌, ◌/◌, ◌%◌, ◌^◌, ◌≤◌, ◌<◌, ◌≡◌, refl, arith, ap, ◌==◌, ◌⊎◌, inl, inr,
  min, false,
}
use orthos_i_dart_tpx.Base.Bits.{two_pow_add, div_pow-suc}
use orthos_i_dart_tpx.Codec.Chimp128.{
  bit_length, leading_zeros, low_zeros, trailing_zeros, significant, Payload, payload_of,
}
use mathlib.Core.Path.{subst}
use native.Mathlib.Decide.{dec_lt}
use native.Mathlib.Nat.{pow-suc, one-le-pow, mul-le-mul_right, div-add-mod'}

bit_length-le : (f x : ℕ) → bit_length f x ≤ f
unfolding bit_length
bit_length-le zero x = omega arith
bit_length-le (suc f) x = ground (arith, bit_length-le f (x / 2))

bit_length_pos : (f x : ℕ) → 0 < x → bit_length (suc f) x ≡ suc (bit_length f (x / 2))
unfolding bit_length
bit_length_pos f x h = ground arith

low_zeros_even : (f x : ℕ) → x % 2 ≡ 0 → low_zeros (suc f) x ≡ suc (low_zeros f (x / 2))
unfolding low_zeros
low_zeros_even f x h = ground arith

low_zeros_odd : (f x : ℕ) → x % 2 ≡ 1 → low_zeros (suc f) x ≡ 0
unfolding low_zeros
low_zeros_odd f x h = ground arith

below-bit_length : (f x : ℕ) → x < 2 ^ f → x < 2 ^ bit_length f x
unfolding bit_length
below-bit_length zero x h = h
below-bit_length (suc f) zero h = one-le-pow (bit_length (suc f) 0) 2 (omega arith)
below-bit_length (suc f) (suc x) h = rw (bit_length_pos f (suc x) (omega arith)) (
    omega (
      arith,
      pow-suc 2 (bit_length f (suc x / 2)),
      below-bit_length f (suc x / 2) (omega (arith, pow-suc 2 f)),
    ))

mod_two : (x : ℕ) → (x % 2 ≡ 0) ⊎ (x % 2 ≡ 1)
mod_two x = elim (dec_lt (x % 2) 1) [ yes p ↦ inl (omega arith) | no n ↦ inr (omega arith) ]

low_zeros-bit_length : (f x : ℕ) → 0 < x → x < 2 ^ f → low_zeros f x < bit_length f x
low_zeros-bit_length zero x p h = absurd (omega arith)
low_zeros-bit_length (suc f) x p h = elim (mod_two x) [
  | inl even ↦ omega (
    arith,
    low_zeros_even f x even,
    bit_length_pos f x p,
    low_zeros-bit_length f (x / 2) (omega arith) (omega (arith, pow-suc 2 f)),
  )
  | inr odd ↦ omega (arith, low_zeros_odd f x odd, bit_length_pos f x p)
]

shift_none : (x : ℕ) → x / 2 ^ low_zeros 0 x * 2 ^ low_zeros 0 x ≡ x
unfolding low_zeros
shift_none x = omega arith

-- Below its trailing zeros a number has only zeros.
shift_back : (f x : ℕ) → x / 2 ^ low_zeros f x * 2 ^ low_zeros f x ≡ x
shift_back zero x = shift_none x
shift_back (suc f) x = elim (mod_two x) [
  | inl even ↦
      let z = low_zeros f (x / 2) in
      rw (low_zeros_even f x even) (
        omega (
          arith,
          shift_back f (x / 2),
          ap (λ (t : ℕ). t * 2 ^ suc z) (div_pow-suc x z),
          ap (λ (t : ℕ). x / 2 / 2 ^ z * t) (pow-suc 2 z),
        ))
  | inr odd ↦ rw (low_zeros_odd f x odd) (omega arith)
]

-- What stands between the leading and the trailing zeros fits in the bits that are left.
quotient-lt : (x a b : ℕ) → x < 2 ^ (a + b) → x / 2 ^ b < 2 ^ a
quotient-lt x a b h = elim (dec_lt (x / 2 ^ b) (2 ^ a)) [
  | yes p ↦ p
  | no n ↦ absurd (
      let big : 2 ^ a * 2 ^ b ≤ x / 2 ^ b * 2 ^ b = mul-le-mul_right (2 ^ b) (omega arith) in
      omega (arith, two_pow_add a b, div-add-mod' x (2 ^ b), big))
]

-- The payload of a xor can be written in the fields it gets and gives the xor back.
pub record IsPayload (xor : ℕ) (p : Payload) : Type 0 where
  pub leading-lt : p.leading < 64
  pub trailing-lt : p.trailing < 64
  pub width : p.bits ≡ significant p.leading p.trailing
  pub width-le : p.bits ≤ 64
  pub fits : p.value < 2 ^ p.bits
  pub shifted : p.value * 2 ^ p.trailing ≡ xor

-- The bounds on the two counts of zeros, whose sum leaves a bit.
zeros_room :
    (x : ℕ)
    → 0 < x
    → x < 2 ^ 64
    → (leading_zeros x + trailing_zeros x < 64) × (x < 2 ^ (64 - leading_zeros x))
unfolding leading_zeros trailing_zeros
zeros_room x p h =
    let inside : 64 - (64 - bit_length 64 x) ≡ bit_length 64 x =
      omega (arith, bit_length-le 64 x) in
    (
      omega (arith, low_zeros-bit_length 64 x p h, bit_length-le 64 x),
      rw inside (below-bit_length 64 x h),
    )

shift_trailing : (x : ℕ) → x / 2 ^ trailing_zeros x * 2 ^ trailing_zeros x ≡ x
unfolding trailing_zeros
shift_trailing x = shift_back 64 x

nonzero-IsPayload : (x : ℕ) → 0 < x → x < 2 ^ 64 → IsPayload x (payload_of x)
unfolding payload_of
nonzero-IsPayload x p h =
    let (room, top) = zeros_room x p h in
    let e : (x == 0) ≡ false = ground arith in
    let lz : min (leading_zeros x) 63 ≡ leading_zeros x = ground arith in
    let tz : min (trailing_zeros x) 63 ≡ trailing_zeros x = ground arith in
    let bits : significant (leading_zeros x) (trailing_zeros x)
        ≡ 64 - leading_zeros x - trailing_zeros x =
      ground arith in
    let split : 64 - leading_zeros x ≡ 64 - leading_zeros x - trailing_zeros x + trailing_zeros x =
      omega arith in
    let top' : x < 2 ^ (64 - leading_zeros x - trailing_zeros x + trailing_zeros x) =
      subst (λ (n : ℕ). x < 2 ^ n) split top in
    rw (e, lz, tz)
      record {
        leading-lt = omega arith;
        trailing-lt = omega arith;
        width = refl;
        width-le = ground arith;
        fits =
            rw bits
              (quotient-lt x (64 - leading_zeros x - trailing_zeros x) (trailing_zeros x) top');
        shifted = shift_trailing x;
      }

pub payload_of-IsPayload : (xor : ℕ) → xor < 2 ^ 64 → IsPayload xor (payload_of xor)
unfolding payload_of
payload_of-IsPayload zero h = record {
  leading-lt = omega arith;
  trailing-lt = omega arith;
  width = refl;
  width-le = omega arith;
  fits = omega arith;
  shifted = refl;
}
payload_of-IsPayload (suc n) h = nonzero-IsPayload (suc n) (omega arith) h
