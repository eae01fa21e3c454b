-- ===== src/Core/Attrs/Lookup.antt =====
-- What `get` finds after `set`.
use orthos_i_dart_tpx.Base.{
  ℕ, ◌≡◌, ◌≤◌, ◌<◌, arith, refl, List, [], ◌∷◌, true, false, if◌then◌else◌, bytes_eq, bytes_eq→eq,
  bytes_eq_refl, sym, ◌∙◌, Bool-cases, inl, inr, some,
}
use orthos_i_dart_tpx.Core.Error.{ok, err, attr_value_too_large}
use orthos_i_dart_tpx.Core.Attrs.{AttrValue, Attrs, val_len, put, set_attr, get_attr}

true_ne_false : true ≡ false → ⊥
true_ne_false h = cc

apart : (k key j : List ℕ) → bytes_eq k key ≡ false → bytes_eq k j ≡ true → bytes_eq key j ≡ false
apart k key j other here = elim (Bool-cases (bytes_eq key j)) [
  | inl same ↦
      let e : k ≡ key = bytes_eq→eq k j here ∙ sym (bytes_eq→eq key j same) in
      absurd (true_ne_false (sym (bytes_eq_refl key) ∙ rw e at other))
  | inr no_match ↦ no_match
]

get_attr-put :
    (attrs : Attrs) (key j : List ℕ) (value : AttrValue)
    → get_attr (put attrs key value) j ≡ (if bytes_eq key j then some value else get_attr attrs j)
unfolding put get_attr
get_attr-put [] key j value = refl
get_attr-put ((k, v) ∷ rest) key j value = elim (Bool-cases (bytes_eq k key)) [
  | inl same ↦ let e = bytes_eq→eq k key same in rw (same, e) (ground arith)
  | inr other ↦ rw other (elim (Bool-cases (bytes_eq k j)) [
    | inl here ↦ rw (here, apart k key j other here) refl
    | inr there ↦ rw there (get_attr-put rest key j value)
  ])
]

-- A value of more than 4096 bytes is refused and changes nothing; any other is what `get` finds under
-- the key afterwards, and every other key keeps its value.
pub get_attr-set_attr :
    (attrs : Attrs) (key j : List ℕ) (value : AttrValue)
    → (4096 < val_len value
        → set_attr attrs key value ≡ (attrs, err (attr_value_too_large (val_len value))))
      × (val_len value ≤ 4096
          → ((set_attr attrs key value).1 ≡ ok tt)
            × (get_attr (set_attr attrs key value).0 j
                ≡ (if bytes_eq key j then some value else get_attr attrs j)))
unfolding set_attr
get_attr-set_attr attrs key j value =
    (λ large. ground arith, λ small. (ground arith, ground (arith, get_attr-put attrs key j value)))
