-- ===== src/Filter/DeltaZigzag/Zigzag.antt =====
-- The zigzag map on one word.
use orthos_i_dart_tpx.Base.{ℕ, suc, ◌-◌, ◌*◌, ◌/◌, ◌%◌, ◌^◌, ◌≤◌, ◌<◌, ◌≡◌, ◌∙◌, arith, ap}
use orthos_i_dart_tpx.Base.Bits.{bit_xor-zero, bit_xor_ones}
use orthos_i_dart_tpx.Filter.DeltaZigzag.{zigzag, unzigzag}
use native.Mathlib.Decide.{dec_lt}
use native.Mathlib.Nat.{mod-eq_of_lt, mod-eq-sub-mod, pow-suc, one-le-pow}

double_low : (p d : ℕ) → d < p → d * 2 % (p * 2) ≡ d * 2
double_low p d h = mod-eq_of_lt (omega arith)

double_high : (p d : ℕ) → p ≤ d → d < p * 2 → d * 2 % (p * 2) ≡ d * 2 - p * 2
double_high p d h l =
    mod-eq-sub-mod {n = d * 2} {m = p * 2} (omega arith) ∙ mod-eq_of_lt (omega arith)

-- A delta in the lower half, which is not negative, is doubled; -d becomes 2 d - 1. So a delta of
-- small size has a small code, whatever its sign.
pub zigzag_sign :
    (k delta : ℕ)
    → delta < 2 ^ suc k
    → (delta < 2 ^ k → zigzag (2 ^ suc k) delta ≡ 2 * delta)
      × (2 ^ k ≤ delta → zigzag (2 ^ suc k) delta ≡ 2 * (2 ^ suc k - delta) - 1)
unfolding zigzag
zigzag_sign k delta h = (
  λ low. ground (
    arith,
    pow-suc 2 k,
    ap (λ (m : ℕ). delta * 2 % m) (pow-suc 2 k),
    double_low (2 ^ k) delta low,
    bit_xor-zero (2 * delta),
  ),
  λ high. ground (
    arith,
    pow-suc 2 k,
    ap (λ (m : ℕ). delta * 2 % m) (pow-suc 2 k),
    double_high (2 ^ k) delta high (omega (arith, pow-suc 2 k)),
    bit_xor_ones (suc k) (delta * 2 - 2 ^ suc k) (omega (arith, pow-suc 2 k)),
    one-le-pow k 2 (omega arith),
  ),
)

pub zigzag-lt : (k delta : ℕ) → delta < 2 ^ suc k → zigzag (2 ^ suc k) delta < 2 ^ suc k
zigzag-lt k delta h =
    let (low, high) = zigzag_sign k delta h in
    elim (dec_lt delta (2 ^ k)) [
      | yes l ↦ rw (low l) (omega (arith, pow-suc 2 k))
      | no g ↦ rw (high (omega arith)) (omega (arith, pow-suc 2 k))
    ]

pub unzigzag-zigzag :
    (k delta : ℕ) → delta < 2 ^ suc k → unzigzag (2 ^ suc k) (zigzag (2 ^ suc k) delta) ≡ delta
unfolding unzigzag
unzigzag-zigzag k delta h =
    let (low, high) = zigzag_sign k delta h in
    elim (dec_lt delta (2 ^ k)) [
      | yes l ↦ rw (low l) (ground (arith, bit_xor-zero delta))
      | no g ↦ rw (high (omega arith)) (
          ground (
            arith,
            pow-suc 2 k,
            bit_xor_ones (suc k) ((2 * (2 ^ suc k - delta) - 1) / 2) (omega (arith, pow-suc 2 k)),
          ))
    ]
