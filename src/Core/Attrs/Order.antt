-- ===== src/Core/Attrs/Order.antt =====
-- Attributes under one key each, and the order of the keys in the binary form.
use mathlib.Core.List.{Perm}
use mathlib.Core.List.Perm
use orthos_i_dart_tpx.Base.{
  ℕ, ◌≡◌, ◌∙◌, refl, sym, List, [], ◌∷◌, ◌++◌, false, if◌then◌else◌, Option, none, some, bytes_eq,
  bytes_eq→eq, bytes_eq_refl, true_ne_false, bytes_eq_sym, Bool-cases, inl, inr, ◌≢◌, All,
}
use orthos_i_dart_tpx.Core.Attrs.{AttrValue, Attrs, put, get_attr}
use orthos_i_dart_tpx.Core.Attrs.Binary.{sorted, insert_sorted, text_le}

-- No key twice.
abbrev pub IsDistinct : Attrs → Type 0
IsDistinct [] = Unit
IsDistinct ((k, v) ∷ rest) = (get_attr rest k ≡ none) × IsDistinct rest

some_ne_none : {A : Type 0} (a : A) → some a ≢ none
some_ne_none a h = cc

get_attr-middle :
    (front : Attrs) (k : List ℕ) (v : AttrValue) (rest : Attrs)
    → get_attr (front ++ ((k, v) ∷ rest)) k ≢ none
unfolding get_attr
get_attr-middle [] k v rest h = some_ne_none v (rw (bytes_eq_refl k) at h)
get_attr-middle ((k', v') ∷ front) k v rest h = elim (Bool-cases (bytes_eq k' k)) [
  | inl same ↦ some_ne_none v' (rw same at h)
  | inr other ↦ get_attr-middle front k v rest (rw other at h)
]

pub front-absent :
    (front : Attrs) (k : List ℕ) (v : AttrValue) (rest : Attrs)
    → IsDistinct (front ++ ((k, v) ∷ rest))
    → get_attr front k ≡ none
unfolding get_attr
front-absent [] k v rest d = refl
front-absent ((k', v') ∷ front) k v rest d = elim (Bool-cases (bytes_eq k' k)) [
  | inl same ↦
      let e = bytes_eq→eq k' k same in absurd (get_attr-middle front k v rest (rw e at d.0))
  | inr other ↦ rw other (front-absent front k v rest d.1)
]

pub put-fresh :
    (attrs : Attrs) (k : List ℕ) (v : AttrValue)
    → get_attr attrs k ≡ none
    → put attrs k v ≡ attrs ++ ((k, v) ∷ [])
unfolding put get_attr
put-fresh [] k v h = refl
put-fresh ((k', v') ∷ rest) k v h = elim (Bool-cases (bytes_eq k' k)) [
  | inl same ↦ absurd (some_ne_none v' (rw same at h))
  | inr other ↦ rw (other, put-fresh rest k v (rw other at h)) refl
]

swap_tests :
    (k k' j : List ℕ) (v v' : AttrValue) (rest : Option AttrValue)
    → bytes_eq k' k ≡ false
    → (if bytes_eq k' j then some v' else (if bytes_eq k j then some v else rest))
      ≡ (if bytes_eq k j then some v else (if bytes_eq k' j then some v' else rest))
swap_tests k k' j v v' rest other = elim (Bool-cases (bytes_eq k' j)) [
  | inl here ↦ elim (Bool-cases (bytes_eq k j)) [
    | inl too ↦
        let e : k' ≡ k = bytes_eq→eq k' j here ∙ sym (bytes_eq→eq k j too) in
        absurd (true_ne_false (sym (bytes_eq_refl k) ∙ rw e at other))
    | inr none_such ↦ rw (here, none_such) refl
  ]
  | inr there ↦ rw there refl
]

get_attr-insert_sorted :
    (k : List ℕ) (v : AttrValue) (attrs : Attrs) (j : List ℕ)
    → get_attr attrs k ≡ none
    → get_attr (insert_sorted (k, v) attrs) j ≡ (if bytes_eq k j then some v else get_attr attrs j)
unfolding insert_sorted get_attr
get_attr-insert_sorted k v [] j h = refl
get_attr-insert_sorted k v ((k', v') ∷ rest) j h = elim (Bool-cases (text_le k k')) [
  | inl before ↦ rw before refl
  | inr after ↦ elim (Bool-cases (bytes_eq k' k)) [
    | inl same ↦ absurd (some_ne_none v' (rw same at h))
    | inr other ↦
        rw (after, get_attr-insert_sorted k v rest j (rw other at h))
          (swap_tests k k' j v v' _ other)
  ]
]

insert_sorted-IsDistinct :
    (k : List ℕ) (v : AttrValue) (attrs : Attrs)
    → get_attr attrs k ≡ none
    → IsDistinct attrs
    → IsDistinct (insert_sorted (k, v) attrs)
unfolding insert_sorted get_attr
insert_sorted-IsDistinct k v [] h d = (refl, tt)
insert_sorted-IsDistinct k v ((k', v') ∷ rest) h d = elim (Bool-cases (text_le k k')) [
  | inl before ↦ rw before (h, d)
  | inr after ↦ elim (Bool-cases (bytes_eq k' k)) [
    | inl same ↦ absurd (some_ne_none v' (rw same at h))
    | inr other ↦ rw after (
      get_attr-insert_sorted k v rest k' (rw other at h) ∙ rw (bytes_eq_sym k k' other) d.0,
      insert_sorted-IsDistinct k v rest (rw other at h) d.1,
    )
  ]
]

insert_sorted-All :
    (P : List ℕ × AttrValue → Type 0) (e : List ℕ × AttrValue) (attrs : Attrs)
    → P e
    → All P attrs
    → All P (insert_sorted e attrs)
unfolding insert_sorted
insert_sorted-All P e [] p all = (p, tt)
insert_sorted-All P e (e' ∷ rest) p all = elim (Bool-cases (text_le e.0 e'.0)) [
  | inl before ↦ rw before (p, all)
  | inr after ↦ rw after (all.0, insert_sorted-All P e rest p all.1)
]

pub get_attr-sorted :
    (attrs : Attrs) (j : List ℕ) → IsDistinct attrs → get_attr (sorted attrs) j ≡ get_attr attrs j
unfolding sorted get_attr
get_attr-sorted [] j d = refl
get_attr-sorted ((k, v) ∷ rest) j d =
    get_attr-insert_sorted k v (sorted rest) j (get_attr-sorted rest k d.1 ∙ d.0)
    ∙ rw (get_attr-sorted rest j d.1) refl

pub sorted-IsDistinct : (attrs : Attrs) → IsDistinct attrs → IsDistinct (sorted attrs)
unfolding sorted
sorted-IsDistinct [] d = tt
sorted-IsDistinct ((k, v) ∷ rest) d =
    insert_sorted-IsDistinct k v (sorted rest) (get_attr-sorted rest k d.1 ∙ d.0)
      (sorted-IsDistinct rest d.1)

pub sorted-All :
    (P : List ℕ × AttrValue → Type 0) (attrs : Attrs) → All P attrs → All P (sorted attrs)
unfolding sorted
sorted-All P [] all = tt
sorted-All P (e ∷ rest) all = insert_sorted-All P e (sorted rest) all.0 (sorted-All P rest all.1)

insert_sorted-Perm :
    (e : List ℕ × AttrValue) (attrs : Attrs) → Perm (insert_sorted e attrs) (e ∷ attrs)
unfolding insert_sorted
insert_sorted-Perm e [] = Perm.refl _
insert_sorted-Perm e (e' ∷ rest) = elim (Bool-cases (text_le e.0 e'.0)) [
  | inl before ↦ rw before (Perm.refl _)
  | inr after ↦
      rw after (Perm.trans (Perm.cons e' (insert_sorted-Perm e rest)) (Perm.swap e e' rest))
]

pub sorted-Perm : (attrs : Attrs) → Perm (sorted attrs) attrs
unfolding sorted
sorted-Perm [] = Perm.refl _
sorted-Perm (e ∷ rest) =
    Perm.trans (insert_sorted-Perm e (sorted rest)) (Perm.cons e (sorted-Perm rest))
