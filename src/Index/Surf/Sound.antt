-- ===== src/Index/Surf/Sound.antt =====
-- The range filter misses no key.
use orthos_i_dart_tpx.Base.{
  ℕ, ◌≡◌, ◌↔◌, ◌∙◌, refl, arith, sym, List, [], ◌∷◌, true, false, if◌then◌else◌, bytes_eq,
  bytes_eq→eq, bytes_eq_refl, true_ne_false, All, Bool-cases, inl, inr,
}
use orthos_i_dart_tpx.Core.Attrs.Binary.{text_le}
use orthos_i_dart_tpx.Index.Surf.{
  insert_key, sort_keys, dedup, build, range_from, has_key, range_lookup,
}

text_le_trans : (a b c : List ℕ) → text_le a b ≡ true → text_le b c ≡ true → text_le a c ≡ true
unfolding text_le
text_le_trans [] b c h k = refl
text_le_trans (x ∷ a) [] c h k = absurd (true_ne_false (sym h))
text_le_trans (x ∷ a) (y ∷ b) [] h k = absurd (true_ne_false (sym k))
text_le_trans (x ∷ a) (y ∷ b) (z ∷ c) h k = ground (arith, text_le_trans a b c)

text_le_total : (a b : List ℕ) → text_le a b ≡ false → text_le b a ≡ true
unfolding text_le
text_le_total [] b h = absurd (true_ne_false h)
text_le_total (x ∷ a) [] h = refl
text_le_total (x ∷ a) (y ∷ b) h = ground (arith, text_le_total a b)

text_le_refl : (a : List ℕ) → text_le a a ≡ true
unfolding text_le
text_le_refl [] = refl
text_le_refl (x ∷ a) = ground (arith, text_le_refl a)

-- Every key is at most every later one.
abbrev IsSorted : List (List ℕ) → Type 0
IsSorted [] = Unit
IsSorted (k ∷ rest) = All (λ (l : List ℕ). text_le k l ≡ true) rest × IsSorted rest

All-insert_key :
    (P : List ℕ → Type 0) (key : List ℕ) (keys : List (List ℕ))
    → P key
    → All P keys
    → All P (insert_key key keys)
unfolding insert_key
All-insert_key P key [] p all = (p, tt)
All-insert_key P key (k ∷ rest) p all = elim (Bool-cases (text_le key k)) [
  | inl before ↦ rw before (p, all)
  | inr after ↦ rw after (all.0, All-insert_key P key rest p all.1)
]

All_above :
    (a b : List ℕ) (keys : List (List ℕ))
    → text_le a b ≡ true
    → All (λ (l : List ℕ). text_le b l ≡ true) keys
    → All (λ (l : List ℕ). text_le a l ≡ true) keys
All_above a b [] h all = tt
All_above a b (k ∷ keys) h all = (text_le_trans a b k h all.0, All_above a b keys h all.1)

insert_key-IsSorted :
    (key : List ℕ) (keys : List (List ℕ)) → IsSorted keys → IsSorted (insert_key key keys)
unfolding insert_key
insert_key-IsSorted key [] s = (tt, tt)
insert_key-IsSorted key (k ∷ rest) s = elim (Bool-cases (text_le key k)) [
  | inl before ↦ rw before ((before, All_above key k rest before s.0), s)
  | inr after ↦ rw after (
    All-insert_key (λ l. text_le k l ≡ true) key rest (text_le_total key k after) s.0,
    insert_key-IsSorted key rest s.1,
  )
]

sort_keys-IsSorted : (keys : List (List ℕ)) → IsSorted (sort_keys keys)
unfolding sort_keys
sort_keys-IsSorted [] = tt
sort_keys-IsSorted (k ∷ rest) = insert_key-IsSorted k (sort_keys rest) (sort_keys-IsSorted rest)

All-dedup : (P : List ℕ → Type 0) (keys : List (List ℕ)) → All P keys → All P (dedup keys)
unfolding dedup
All-dedup P [] all = tt
All-dedup P (k ∷ []) all = all
All-dedup P (k ∷ l ∷ rest) all = elim (Bool-cases (bytes_eq k l)) [
  | inl same ↦ rw same (All-dedup P (l ∷ rest) all.1)
  | inr other ↦ rw other (all.0, All-dedup P (l ∷ rest) all.1)
]

dedup-IsSorted : (keys : List (List ℕ)) → IsSorted keys → IsSorted (dedup keys)
unfolding dedup
dedup-IsSorted [] s = tt
dedup-IsSorted (k ∷ []) s = s
dedup-IsSorted (k ∷ l ∷ rest) s = elim (Bool-cases (bytes_eq k l)) [
  | inl same ↦ rw same (dedup-IsSorted (l ∷ rest) s.1)
  | inr other ↦
      rw other (All-dedup (λ m. text_le k m ≡ true) (l ∷ rest) s.0, dedup-IsSorted (l ∷ rest) s.1)
]

has_key-insert_key :
    (key j : List ℕ) (keys : List (List ℕ))
    → has_key (insert_key key keys) j ≡ (if bytes_eq key j then true else has_key keys j)
unfolding insert_key has_key
has_key-insert_key key j [] = refl
has_key-insert_key key j (k ∷ rest) = elim (Bool-cases (text_le key k)) [
  | inl before ↦ rw before refl
  | inr after ↦
      rw (after, has_key-insert_key key j rest)
        (elim (Bool-cases (bytes_eq key j)) [
          | inl here ↦
              rw here (elim (Bool-cases (bytes_eq k j)) [ inl h ↦ rw h refl | inr h ↦ rw h refl ])
          | inr there ↦ rw there refl
        ])
]

has_key-sort_keys :
    (j : List ℕ) (keys : List (List ℕ)) → has_key (sort_keys keys) j ≡ has_key keys j
unfolding sort_keys has_key
has_key-sort_keys j [] = refl
has_key-sort_keys j (k ∷ rest) =
    has_key-insert_key k j (sort_keys rest) ∙ rw (has_key-sort_keys j rest) refl

has_key-dedup : (j : List ℕ) (keys : List (List ℕ)) → has_key (dedup keys) j ≡ has_key keys j
unfolding dedup has_key
has_key-dedup j [] = refl
has_key-dedup j (k ∷ []) = refl
has_key-dedup j (k ∷ l ∷ rest) = elim (Bool-cases (bytes_eq k l)) [
  | inl same ↦
      let e = bytes_eq→eq k l same in
      rw (same, has_key-dedup j (l ∷ rest), e)
        (elim (Bool-cases (bytes_eq l j)) [ inl h ↦ rw h refl | inr h ↦ rw h refl ])
  | inr other ↦ rw (other, has_key-dedup j (l ∷ rest)) refl
]

-- A key of a sorted list is at least the first.
first_text_le :
    (k j : List ℕ) (rest : List (List ℕ))
    → All (λ (l : List ℕ). text_le k l ≡ true) rest
    → has_key rest j ≡ true
    → text_le k j ≡ true
unfolding has_key
first_text_le k j [] all h = absurd (true_ne_false (sym h))
first_text_le k j (l ∷ rest) all h = elim (Bool-cases (bytes_eq l j)) [
  | inl here ↦ let e : l ≡ j = bytes_eq→eq l j here in rw (sym e) all.0
  | inr there ↦ first_text_le k j rest all.1 (rw there at h)
]

range_from-has_key :
    (keys : List (List ℕ)) (left right key : List ℕ)
    → IsSorted keys
    → has_key keys key ≡ true
    → text_le left key ≡ true
    → text_le key right ≡ true
    → range_from keys left right ≡ true
unfolding range_from has_key
range_from-has_key [] left right key s h low high = absurd (true_ne_false (sym h))
range_from-has_key (k ∷ rest) left right key s h low high = elim (Bool-cases (text_le left k)) [
  | inl reached ↦ rw reached (elim (Bool-cases (bytes_eq k key)) [
    | inl here ↦ let e : k ≡ key = bytes_eq→eq k key here in rw e high
    | inr there ↦ text_le_trans k key right (first_text_le k key rest s.0 (rw there at h)) high
  ])
  | inr before ↦ rw before (elim (Bool-cases (bytes_eq k key)) [
    | inl here ↦
        let e : k ≡ key = bytes_eq→eq k key here in
        absurd (true_ne_false (sym low ∙ rw e at before))
    | inr there ↦ range_from-has_key rest left right key s.1 (rw there at h) low high
  ])
]

-- A key between two bounds.
abbrev pub InRange : List (List ℕ) → List ℕ → List ℕ → Type 0
InRange keys left right =
    (key : List ℕ) × (has_key keys key ≡ true)
    × (text_le left key ≡ true)
    × (text_le key right ≡ true)

range_from-InRange :
    (keys : List (List ℕ)) (left right : List ℕ)
    → range_from keys left right ≡ true
    → InRange keys left right
unfolding range_from has_key
range_from-InRange [] left right h = absurd (true_ne_false (sym h))
range_from-InRange (k ∷ rest) left right h = elim (Bool-cases (text_le left k)) [
  | inl reached ↦ (k, rw (bytes_eq_refl k) refl, reached, rw reached at h)
  | inr before ↦
      let (key, found, low, high) = range_from-InRange rest left right (rw before at h) in
      (
        key,
        (elim (Bool-cases (bytes_eq k key)) [ inl e ↦ rw e refl | inr e ↦ rw e found ]),
        low,
        high,
      )
]

-- For bounds in order, the filter of a list of keys answers true exactly if one of the keys lies
-- between them: it misses none, and has no false positives either.
pub range_lookup_iff :
    (keys : List (List ℕ)) (left right : List ℕ)
    → text_le left right ≡ true
    → (range_lookup (build keys) left right ≡ true) ↔ InRange keys left right
unfolding range_lookup build
range_lookup_iff keys left right order =
    let same = λ (key : List ℕ). has_key-dedup key (sort_keys keys) ∙ has_key-sort_keys key keys in
    let sorted = dedup-IsSorted (sort_keys keys) (sort_keys-IsSorted keys) in
    elim (Bool-cases (has_key (dedup (sort_keys keys)) left)) [
      | inl there ↦
          ((λ h. (left, sym (same left) ∙ there, text_le_refl left, order)), (λ r. rw there refl))
      | inr absent ↦ (
        (λ h.
            let (key, found, low, high) =
              range_from-InRange (dedup (sort_keys keys)) left right (rw absent at h) in
            (key, sym (same key) ∙ found, low, high)),
        (λ r. rw absent (
            range_from-has_key (dedup (sort_keys keys)) left right r.0 sorted (same r.0 ∙ r.1) r.2
              r.3)),
      )
    ]
