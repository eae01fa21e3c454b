-- ===== src/Base/Bits.antt =====
-- `bit_xor` at variables: the recursion on the lowest binary digit, and what follows from it.
use Prim.Native.Nat.{ℕ, zero, suc, ◌+◌, ◌-◌, ◌*◌, ◌/◌, ◌%◌, ◌^◌, ◌≤◌, ◌<◌}
use Prim.Native.Nat.{max, bit_or, bit_or-bitwise, bit_xor, digits, differ, bitwise, bit_xor-bitwise}
use mathlib.Core.Path.{◌≡◌, refl, ap, sym, ◌∙◌}
use native.Mathlib.Omega.{arith}
use native.Mathlib.Nat.{
  pow-suc, one-le-pow, zero-add, div-div-eq-div-mul, div-add-mod', mod-lt, mod-eq_of_lt,
  add-mul-mod_self_right,
}

-- Fuel that is at least the number itself is enough, and more changes nothing.
same_digits :
    (z : ℕ → ℕ) (f : ℕ → ℕ → ℕ) (a b k l : ℕ) → a ≤ l → a ≤ k → digits z f l a b ≡ digits z f k a b
same_digits z f (suc a) b (suc k) (suc l) hl hk =
    rw (same_digits z f (suc a / 2) (b / 2) k l (omega arith) (omega arith)) refl
same_digits z f (suc a) b zero l hl hk = absurd (omega arith)
same_digits z f (suc a) b (suc k) zero hl hk = absurd (omega arith)
same_digits z f zero b zero zero _ _ = refl
same_digits z f zero b zero (suc l) _ _ = refl
same_digits z f zero b (suc k) zero _ _ = refl
same_digits z f zero b (suc k) (suc l) _ _ = refl

-- The lowest digit of a xor is the sum of the lowest digits, mod 2.
differ_digit : (x y : ℕ) → x < 2 → y < 2 → differ x y ≡ (x + y) % 2
differ_digit zero zero p q = refl
differ_digit zero (suc zero) p q = refl
differ_digit zero (suc (suc y)) p q = absurd (omega arith)
differ_digit (suc zero) zero p q = refl
differ_digit (suc zero) (suc zero) p q = refl
differ_digit (suc zero) (suc (suc y)) p q = absurd (omega arith)
differ_digit (suc (suc x)) y p q = absurd (omega arith)

bitwise_step :
    (a b : ℕ)
    → bitwise (λ y. y) differ a b
      ≡ bitwise (λ y. y) differ (a / 2) (b / 2) * 2 + differ (a % 2) (b % 2)
bitwise_step zero b = omega arith
bitwise_step (suc a) b = omega (
  arith,
  same_digits (λ y. y) differ (suc a / 2) (b / 2) (suc a / 2) a (omega arith) (omega arith),
)

pub bit_xor_step : (a b : ℕ) → bit_xor a b ≡ bit_xor (a / 2) (b / 2) * 2 + (a % 2 + b % 2) % 2
bit_xor_step a b = omega (
  arith,
  bit_xor-bitwise a b,
  bit_xor-bitwise (a / 2) (b / 2),
  bitwise_step a b,
  differ_digit (a % 2) (b % 2) (omega arith) (omega arith),
)

pub zero-bit_xor : (b : ℕ) → bit_xor 0 b ≡ b
zero-bit_xor b = bit_xor-bitwise 0 b

-- The inductions halve both arguments under a common bound.
bit_xor-zero_below : (n a : ℕ) → a ≤ n → bit_xor a 0 ≡ a
bit_xor-zero_below n zero h = refl
bit_xor-zero_below zero (suc a) h = absurd (omega arith)
bit_xor-zero_below (suc n) (suc a) h =
    omega (arith, bit_xor_step (suc a) 0, bit_xor-zero_below n (suc a / 2) (omega arith))

pub bit_xor-zero : (a : ℕ) → bit_xor a 0 ≡ a
bit_xor-zero a = bit_xor-zero_below a a (omega arith)

pub bit_xor-half : (a b : ℕ) → bit_xor a b / 2 ≡ bit_xor (a / 2) (b / 2)
bit_xor-half a b = omega (arith, bit_xor_step a b)

bit_xor_cancel_below : (n a b : ℕ) → a + b ≤ n → bit_xor b (bit_xor a b) ≡ a
bit_xor_cancel_below zero zero zero h = refl
bit_xor_cancel_below zero (suc a) b h = absurd (omega arith)
bit_xor_cancel_below zero zero (suc b) h = absurd (omega arith)
bit_xor_cancel_below (suc n) a b h = ground (
  arith,
  bit_xor_step a b,
  bit_xor_step b (bit_xor a b),
  bit_xor-half a b,
  bit_xor_cancel_below n (a / 2) (b / 2) (omega arith),
)

-- A xor with the same number twice changes nothing.
pub bit_xor_cancel : (a b : ℕ) → bit_xor b (bit_xor a b) ≡ a
bit_xor_cancel a b = bit_xor_cancel_below (a + b) a b (omega arith)

-- Two numbers below a power of two have their xor below it.
pub bit_xor-lt : (k a b : ℕ) → a < 2 ^ k → b < 2 ^ k → bit_xor a b < 2 ^ k
bit_xor-lt zero zero zero p q = omega arith
bit_xor-lt zero zero (suc b) p q = absurd (omega arith)
bit_xor-lt zero (suc a) b p q = absurd (omega arith)
bit_xor-lt (suc k) a b p q = ground (
  arith,
  pow-suc 2 k,
  bit_xor_step a b,
  bit_xor-lt k (a / 2) (b / 2) (omega (arith, pow-suc 2 k)) (omega (arith, pow-suc 2 k)),
)

half_ones : (k : ℕ) → (2 ^ suc k - 1) / 2 ≡ 2 ^ k - 1
half_ones k = omega (arith, pow-suc 2 k)

-- A xor with ones in all of the `k` places is the complement.
pub bit_xor_ones : (k a : ℕ) → a < 2 ^ k → bit_xor a (2 ^ k - 1) ≡ 2 ^ k - 1 - a
bit_xor_ones zero a h = omega (arith, bit_xor-zero a)
bit_xor_ones (suc k) a h = ground (
  arith,
  pow-suc 2 k,
  bit_xor_step a (2 ^ suc k - 1),
  half_ones k,
  bit_xor_ones k (a / 2) (omega (arith, pow-suc 2 k)),
  one-le-pow k 2 (omega arith),
)

-- The xor is zero only of equal numbers.
pub bit_xor_eq_zero : (a b : ℕ) → bit_xor a b ≡ 0 → a ≡ b
bit_xor_eq_zero a b h = ground (arith, bit_xor_cancel a b, bit_xor-zero b)

or_step :
    (a b : ℕ)
    → bitwise (λ y. y) max a b ≡ bitwise (λ y. y) max (a / 2) (b / 2) * 2 + max (a % 2) (b % 2)
or_step zero b = omega arith
or_step (suc a) b =
    omega (
      arith,
      same_digits (λ y. y) max (suc a / 2) (b / 2) (suc a / 2) a (omega arith) (omega arith),
    )

pub bit_or_step : (a b : ℕ) → bit_or a b ≡ bit_or (a / 2) (b / 2) * 2 + max (a % 2) (b % 2)
bit_or_step a b = omega (arith, bit_or-bitwise a b, bit_or-bitwise (a / 2) (b / 2), or_step a b)

bit_or-zero_below : (n a : ℕ) → a ≤ n → bit_or a 0 ≡ a
bit_or-zero_below n zero h = refl
bit_or-zero_below zero (suc a) h = absurd (omega arith)
bit_or-zero_below (suc n) (suc a) h =
    omega (arith, bit_or_step (suc a) 0, bit_or-zero_below n (suc a / 2) (omega arith))

-- A bit that is put behind a number.
pub bit_or_push : (a x : ℕ) → x < 2 → bit_or (a * 2) x ≡ a * 2 + x
bit_or_push a x h = ground (arith, bit_or_step (a * 2) x, bit_or-zero_below a a (omega arith))

pub two_pow_add : (a b : ℕ) → 2 ^ (a + b) ≡ 2 ^ a * 2 ^ b
two_pow_add zero b = ground (arith, ap (λ (n : ℕ). 2 ^ n) (zero-add b))
two_pow_add (suc a) b =
    let e : suc a + b ≡ suc (a + b) = omega arith in
    rw e (
      omega (
        arith,
        pow-suc 2 (a + b),
        pow-suc 2 a,
        two_pow_add a b,
        ap (λ (t : ℕ). t * 2 ^ b) (pow-suc 2 a),
      ))

-- The quotient by the next power of two, from the halved number.
pub div_pow-suc : (v n : ℕ) → v / 2 ^ suc n ≡ v / 2 / 2 ^ n
div_pow-suc v n =
    let e : 2 * 2 ^ n ≡ 2 ^ suc n = omega (arith, pow-suc 2 n) in
    sym (div-div-eq-div-mul v 2 (2 ^ n) ∙ ap (λ (m : ℕ). v / m) e)

mod_halve : (v m : ℕ) → v % 2 ^ suc m ≡ v / 2 % 2 ^ m * 2 + v % 2
mod_halve v m =
    let q = v / 2 / 2 ^ m in
    let r = v / 2 % 2 ^ m in
    let pos : 1 ≤ 2 ^ m = one-le-pow m 2 (omega arith) in
    let small : r < 2 ^ m = mod-lt (v / 2) pos in
    let e : v ≡ r * 2 + v % 2 + q * 2 ^ suc m =
      omega (arith, div-add-mod' (v / 2) (2 ^ m), ap (λ (t : ℕ). q * t) (pow-suc 2 m)) in
    ap (λ (t : ℕ). t % 2 ^ suc m) e
    ∙ add-mul-mod_self_right (r * 2 + v % 2) q (2 ^ suc m)
    ∙ mod-eq_of_lt (omega (arith, pow-suc 2 m))

-- The highest of `n + 1` low digits stands apart.
pub mod_pow-suc : (v n : ℕ) → v % 2 ^ suc n ≡ v / 2 ^ n % 2 * 2 ^ n + v % 2 ^ n
mod_pow-suc v zero = omega arith
mod_pow-suc v (suc n) = omega (
  arith,
  mod_halve v (suc n),
  mod_halve v n,
  mod_pow-suc (v / 2) n,
  div_pow-suc v n,
  ap (λ (t : ℕ). v / 2 / 2 ^ n % 2 * t) (pow-suc 2 n),
  ap (λ (t : ℕ). t % 2 * 2 ^ suc n) (div_pow-suc v n),
)
