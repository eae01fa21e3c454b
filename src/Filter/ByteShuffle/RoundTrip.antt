-- ===== src/Filter/ByteShuffle/RoundTrip.antt =====
-- Shuffling and unshuffling.
use orthos_i_dart_tpx.Base.{
  ℕ, zero, suc, ◌+◌, ◌*◌, ◌/◌, ◌%◌, ◌≤◌, ◌<◌, ◌≡◌, ◌∙◌, refl, arith, ap, sym, List, ◌++◌, length,
  [], ◌∷◌, get_or, take, drop, replicate, length-replicate, length-append, length-take, length-drop,
  get_or_ext, ltb, leb, ◌==◌, ◌||◌, Bool-cases, inl, inr, true, false,
}
use orthos_i_dart_tpx.Filter.ByteShuffle.{copy_tail, shuffle_scalar, unshuffle_scalar}
use orthos_i_dart_tpx.Filter.ByteShuffle.Grid.{grid, grid_lem}
use native.Mathlib.Decide.{dec_lt}
use native.Mathlib.Nat.{le_trans, mul-le-mul_right, div-add-mod', mod-lt}

get_or-take : (n : ℕ) (xs : List ℕ) (i : ℕ) → i < n → get_or (take n xs) i 0 ≡ get_or xs i 0
get_or-take zero xs i h = absurd (omega arith)
get_or-take (suc n) [] i h = refl
get_or-take (suc n) (x ∷ xs) zero h = refl
get_or-take (suc n) (x ∷ xs) (suc i) h = get_or-take n xs i (omega arith)

get_or-append_front :
    (xs ys : List ℕ) (i : ℕ) → i < length xs → get_or (xs ++ ys) i 0 ≡ get_or xs i 0
get_or-append_front [] ys i h = absurd (omega arith)
get_or-append_front (x ∷ xs) ys zero h = refl
get_or-append_front (x ∷ xs) ys (suc i) h = get_or-append_front xs ys i (omega arith)

drop_nil : (n : ℕ) → drop {A = ℕ} n [] ≡ []
drop_nil zero = refl
drop_nil (suc n) = refl

-- Behind the cut the end of the second list shows through.
get_or-splice :
    (n : ℕ) (xs ys : List ℕ) (i : ℕ)
    → n ≤ length xs
    → n ≤ i
    → get_or (take n xs ++ drop n ys) i 0 ≡ get_or ys i 0
get_or-splice zero xs ys i l h = refl
get_or-splice (suc n) [] ys i l h = absurd (omega arith)
get_or-splice (suc n) (x ∷ xs) ys zero l h = absurd (omega arith)
get_or-splice (suc n) (x ∷ xs) [] (suc i) l h =
    rw (drop_nil n) at (get_or-splice n xs [] i (omega arith) (omega arith))
get_or-splice (suc n) (x ∷ xs) (y ∷ ys) (suc i) l h =
    get_or-splice n xs ys i (omega arith) (omega arith)

split_unique : (n b i b' i' : ℕ) → i < n → i' < n → b * n + i ≡ b' * n + i' → (b ≡ b') × (i ≡ i')
split_unique n zero i zero i' h h' e = (refl, omega arith)
split_unique n zero i (suc b') i' h h' e = absurd (omega arith)
split_unique n (suc b) i zero i' h h' e = absurd (omega arith)
split_unique n (suc b) i (suc b') i' h h' e =
    let (p, q) = split_unique n b i b' i' h h' (omega arith) in (omega arith, q)

quotient-lt : (j s n : ℕ) → 0 < s → j < n * s → j / s < n
quotient-lt j s n pos h = elim (dec_lt (j / s) n) [
  | yes p ↦ p
  | no p ↦
      let big : n * s ≤ j / s * s = mul-le-mul_right s (omega arith) in
      absurd (omega (arith, div-add-mod' j s))
]

cell-lt : (n rows b i : ℕ) → b < rows → i < n → b * n + i < rows * n
cell-lt n rows b i hb hi = let room : suc b * n ≤ rows * n = mul-le-mul_right n hb in omega arith

whole-le : (len s : ℕ) → len / s * s ≤ len
whole-le len s = omega (arith, div-add-mod' len s)

-- The copied tail, the kept front and the length.
copy_tail_lem :
    (bytes : List ℕ) (s : ℕ) (out : List ℕ)
    → length out ≡ length bytes
    → (length (copy_tail bytes s out) ≡ length bytes)
      × ((j : ℕ) → j < length bytes / s * s → get_or (copy_tail bytes s out) j 0 ≡ get_or out j 0)
      × ((j : ℕ)
          → length bytes / s * s ≤ j
          → j < length bytes
          → get_or (copy_tail bytes s out) j 0 ≡ get_or bytes j 0)
unfolding copy_tail
copy_tail_lem bytes s out e =
    let ts = length bytes / s * s in
    let le = whole-le (length bytes) s in
    let front : length (take ts out) ≡ ts = ground (arith, length-take ts out) in
    elim (Bool-cases (ltb 0 (length bytes % s))) [
      | inl some_left ↦ rw some_left (
        ground (arith, length-append (take ts out) (drop ts bytes), length-drop ts bytes),
        λ j h.
            get_or-append_front (take ts out) (drop ts bytes) j (omega arith)
            ∙ get_or-take ts out j h,
        λ j h l. get_or-splice ts out bytes j (omega arith) h,
      )
      | inr none_left ↦
          rw none_left
            (e, λ j h. refl, λ j h l. absurd (ground (arith, div-add-mod' (length bytes) s)))
    ]

-- What a loop over places that are apart, and the copied tail, make of a block.
module _ (bytes : List ℕ) (rows columns s : ℕ) (place value : ℕ → ℕ → ℕ)
    (inside : (b i : ℕ) → b < rows → i < columns → place b i < length bytes / s * s)
    (apart : (b i b' i' : ℕ)
      → b < rows
      → i < columns
      → b' < rows
      → i' < columns
      → place b i ≡ place b' i'
      → (b ≡ b') × (i ≡ i')) where
  filled_lem :
      (out : List ℕ)
      → out
        ≡ copy_tail bytes s (
            grid rows columns
              (length bytes)
              place
              value
              (λ b i hb hi. le_trans (inside b i hb hi) (whole-le (length bytes) s))
              apart
              (replicate (length bytes) 0))
      → (length out ≡ length bytes)
        × ((b i : ℕ) → b < rows → i < columns → get_or out (place b i) 0 ≡ value b i)
        × ((j : ℕ)
            → length bytes / s * s ≤ j
            → j < length bytes
            → get_or out j 0 ≡ get_or bytes j 0)
  filled_lem out e =
      let bound = λ (b i : ℕ) (hb : b < rows) (hi : i < columns).
        le_trans (inside b i hb hi) (whole-le (length bytes) s) in
      let start = replicate (length bytes) 0 in
      let (size, cells) =
        grid_lem rows columns (length bytes) place value bound apart start
          (length-replicate (length bytes) 0) in
      let (l, front, back) =
        copy_tail_lem bytes s (grid rows columns (length bytes) place value bound apart start)
          size in
      rw e (l, λ b i hb hi. front (place b i) (inside b i hb hi) ∙ cells b i hb hi, back)

shuffle_cells :
    (bytes : List ℕ) (s : ℕ)
    → 1 < s
    → 0 < length bytes
    → (length (shuffle_scalar bytes s) ≡ length bytes)
      × ((b i : ℕ)
          → b < s
          → i < length bytes / s
          → get_or (shuffle_scalar bytes s) (b * (length bytes / s) + i) 0
            ≡ get_or bytes (i * s + b) 0)
      × ((j : ℕ)
          → length bytes / s * s ≤ j
          → j < length bytes
          → get_or (shuffle_scalar bytes s) j 0 ≡ get_or bytes j 0)
unfolding shuffle_scalar
shuffle_cells bytes s wide more =
    let n = length bytes / s in
    let test : ((length bytes == 0) || leb s 1) ≡ false = ground arith in
    filled_lem bytes s n s (λ b i. b * n + i) (λ b i. get_or bytes (i * s + b) 0)
      (λ b i hb hi. omega (arith, cell-lt n s b i hb hi))
      (λ b i b' i' hb hi hb' hi' e. split_unique n b i b' i' hi hi' e) (shuffle_scalar bytes s)
      (rw test refl)

unshuffle_cells :
    (bytes : List ℕ) (s : ℕ)
    → 1 < s
    → 0 < length bytes
    → (length (unshuffle_scalar bytes s) ≡ length bytes)
      × ((b i : ℕ)
          → b < s
          → i < length bytes / s
          → get_or (unshuffle_scalar bytes s) (i * s + b) 0
            ≡ get_or bytes (b * (length bytes / s) + i) 0)
      × ((j : ℕ)
          → length bytes / s * s ≤ j
          → j < length bytes
          → get_or (unshuffle_scalar bytes s) j 0 ≡ get_or bytes j 0)
unfolding unshuffle_scalar
unshuffle_cells bytes s wide more =
    let n = length bytes / s in
    let test : ((length bytes == 0) || leb s 1) ≡ false = ground arith in
    filled_lem bytes s n s (λ b i. i * s + b) (λ b i. get_or bytes (b * n + i) 0)
      (λ b i hb hi. cell-lt s n i b hi hb)
      (λ b i b' i' hb hi hb' hi' e. let (p, q) = split_unique s i b i' b' hb hb' e in (q, p))
      (unshuffle_scalar bytes s) (rw test refl)

back_at :
    (bytes : List ℕ) (s j : ℕ)
    → 1 < s
    → j < length bytes
    → get_or (unshuffle_scalar (shuffle_scalar bytes s) s) j 0 ≡ get_or bytes j 0
back_at bytes s j wide h =
    let n = length bytes / s in
    let (size, cells, tail) = shuffle_cells bytes s wide (omega arith) in
    let (size', cells', tail') = unshuffle_cells (shuffle_scalar bytes s) s wide (omega arith) in
    let same : length (shuffle_scalar bytes s) / s ≡ n = ap (λ (m : ℕ). m / s) size in
    elim (dec_lt j (n * s)) [
      | yes front ↦
          let low : j % s < s = mod-lt j (omega arith) in
          let whole : j ≡ j / s * s + j % s = omega (arith, div-add-mod' j s) in
          let col : j / s < n = quotient-lt j s n (omega arith) front in
          ap (λ (k : ℕ). get_or (unshuffle_scalar (shuffle_scalar bytes s) s) k 0) whole
          ∙ rw same at (cells' (j % s) (j / s) low (rw same col))
          ∙ cells (j % s) (j / s) low col
          ∙ ap (λ (k : ℕ). get_or bytes k 0) (sym whole)
      | no behind ↦ tail' j (rw same (omega arith)) (omega arith) ∙ tail j (omega arith) h
    ]

untouched :
    (bytes : List ℕ) (s : ℕ)
    → ((length bytes == 0) || leb s 1) ≡ true
    → unshuffle_scalar (shuffle_scalar bytes s) s ≡ bytes
unfolding shuffle_scalar unshuffle_scalar
untouched bytes s e = rw (e, e) refl

-- Unshuffling a shuffled block gives the block back, for every element size, a tail shorter than an
-- element included.
pub unshuffle-shuffle_scalar :
    (bytes : List ℕ) (s : ℕ) → unshuffle_scalar (shuffle_scalar bytes s) s ≡ bytes
unshuffle-shuffle_scalar bytes s = elim (Bool-cases ((length bytes == 0) || leb s 1)) [
  | inl plain ↦ untouched bytes s plain
  | inr work ↦
      let wide : 1 < s = ground arith in
      let more : 0 < length bytes = ground arith in
      let size = (shuffle_cells bytes s wide more).0 in
      let size' = (unshuffle_cells (shuffle_scalar bytes s) s wide (omega arith)).0 in
      get_or_ext 0 (unshuffle_scalar (shuffle_scalar bytes s) s) bytes (size' ∙ size)
        (λ j h. back_at bytes s j wide (omega arith))
]
