-- ===== src/Filter/ByteShuffle/Grid.antt =====
-- Two nested loops that store a value for each pair of indices at a place of its own.
use orthos_i_dart_tpx.Base.{
  ℕ, zero, suc, ◌+◌, ◌≤◌, ◌<◌, ◌≡◌, ◌⊎◌, ◌∙◌, inl, inr, arith, ap₂, sym, List, length, get_or, set,
  length-set, get_or-set_self, get_or-set_ne, for_range,
}
use native.Mathlib.Decide.{ℕ_discrete, dec_lt}

-- A property that holds at the start and that each round carries on holds at the end.
for_range_inv {ℓ} :
    {A : Type ℓ} (P : ℕ → A → Type 0) (n i : ℕ) (body : ℕ → A → A) (state : A)
    → ((k : ℕ) (s : A) → i ≤ k → k < i + n → P k s → P (suc k) (body k s))
    → P i state
    → P (i + n) (for_range n i body state)
for_range_inv P zero i body state step p = let e : i + 0 ≡ i = omega arith in rw e p
for_range_inv P (suc n) i body state step p =
    let e : i + suc n ≡ i + 1 + n = omega arith in
    let up : suc i ≡ i + 1 = omega arith in
    rw e (
      for_range_inv P n (i + 1) body (body i state)
        (λ k s le lt. step k s (omega arith) (omega arith))
        (rw up at (step i state (omega arith) (omega arith) p)))

module _ (rows columns len : ℕ) (place value : ℕ → ℕ → ℕ)
    (inside : (b i : ℕ) → b < rows → i < columns → place b i < len)
    (apart : (b i b' i' : ℕ)
      → b < rows
      → i < columns
      → b' < rows
      → i' < columns
      → place b i ≡ place b' i'
      → (b ≡ b') × (i ≡ i')) where
  -- The pairs before `(b, i)` are stored.
  record Stored (b i : ℕ) (out : List ℕ) : Type 0 where
    size : length out ≡ len
    cells :
        (b' i' : ℕ)
        → b' < rows
        → i' < columns
        → (b' < b) ⊎ ((b' ≡ b) × (i' < i))
        → get_or out (place b' i') 0 ≡ value b' i'

  nothing_before : (b i : ℕ) → (b < 0) ⊎ ((b ≡ 0) × (i < 0)) → ⊥
  nothing_before b i (inl h) = omega arith
  nothing_before b i (inr (e, h)) = omega arith

  last_row : (b b' i' : ℕ) → (b' < b → ⊥) → (b' < suc b) ⊎ ((b' ≡ suc b) × (i' < 0)) → b' ≡ b
  last_row b b' i' n (inl h) = omega arith
  last_row b b' i' n (inr (e, h)) = omega arith

  earlier :
      (b i b' i' : ℕ)
      → (place b i ≡ place b' i' → ⊥)
      → (b' < b) ⊎ ((b' ≡ b) × (i' < suc i))
      → (b' < b) ⊎ ((b' ≡ b) × (i' < i))
  earlier b i b' i' other (inl h) = inl h
  earlier b i b' i' other (inr (eb, h)) = inr (
    eb,
    elim (dec_lt i' i) [
      | yes lt ↦ lt
      | no n ↦ let ei : i' ≡ i = omega arith in absurd (other (ap₂ place (sym eb) (sym ei)))
    ],
  )

  store_one :
      (b i : ℕ) (out : List ℕ)
      → b < rows
      → i < columns
      → Stored b i out
      → Stored b (suc i) (set out (place b i) (value b i))
  store_one b i out hb hi s = record {
    size = length-set out (place b i) (value b i) ∙ s.size;
    cells = λ b' i' hb' hi' before. elim (ℕ_discrete (place b i) (place b' i')) [
      | yes same ↦
          let (eb, ei) = apart b i b' i' hb hi hb' hi' same in
          rw (sym eb, sym ei)
            (get_or-set_self out (place b i) (value b i) 0 (rw s.size (inside b i hb hi)))
      | no other ↦
          get_or-set_ne out (place b i) (place b' i') (value b i) 0 other
          ∙ s.cells b' i' hb' hi' (earlier b i b' i' other before)
    ];
  }

  store_row :
      (b : ℕ) (out : List ℕ)
      → b < rows
      → Stored b 0 out
      → Stored (suc b) 0 (for_range columns 0 (λ i out'. set out' (place b i) (value b i)) out)
  store_row b out hb s =
      let whole : Stored b (0 + columns)
          (for_range columns 0 (λ i out'. set out' (place b i) (value b i)) out) =
        for_range_inv (Stored b) columns 0 (λ i out'. set out' (place b i) (value b i)) out
          (λ i out' le lt p. store_one b i out' hb (omega arith) p) s in
      record {
        size = whole.size;
        cells = λ b' i' hb' hi' before. whole.cells b' i' hb' hi' (elim (dec_lt b' b) [
          | yes lt ↦ inl lt
          | no n ↦ inr (last_row b b' i' n before, omega arith)
        ]);
      }

  abbrev pub grid : List ℕ → List ℕ
  grid start =
      for_range rows 0
        (λ b out. for_range columns 0 (λ i out'. set out' (place b i) (value b i)) out) start

  -- Every pair finds its value at its place, and nothing else changes the length.
  pub grid_lem :
      (start : List ℕ)
      → length start ≡ len
      → (length (grid start) ≡ len)
        × ((b i : ℕ) → b < rows → i < columns → get_or (grid start) (place b i) 0 ≡ value b i)
  grid_lem start e =
      let all : Stored (0 + rows) 0 (grid start) =
        for_range_inv (λ b out. Stored b 0 out) rows 0
          (λ b out. for_range columns 0 (λ i out'. set out' (place b i) (value b i)) out) start
          (λ b out le lt p. store_row b out (omega arith) p)
          (record {
            size = e;
            cells = λ b' i' hb' hi' before. absurd (nothing_before b' i' before);
          }) in
      (all.size, λ b i hb hi. all.cells b i hb hi (inl (omega arith)))
