-- ===== src/Index/Surf.antt =====
-- crates/tpx-index/src/surf.rs: the range filter, a sorted list of the keys without repetitions. A
-- binary search of a sorted list is the search for the first key that is not smaller.
pub mod Sound
use orthos_i_dart_tpx.Base.{
  ℕ, ◌+◌, ◌*◌, List, [], ◌∷◌, length, Bool, true, false, ◌==◌, if◌then◌else◌, bytes_eq,
}
use orthos_i_dart_tpx.Core.Attrs.Binary.{text_le}

pub record Surf : Type 0 where
  pub keys : List (List ℕ)

unfoldable pub insert_key : List ℕ → List (List ℕ) → List (List ℕ)
insert_key key [] = key ∷ []
insert_key key (k ∷ rest) =
    let more = insert_key key rest in if text_le key k then key ∷ k ∷ rest else k ∷ more

unfoldable pub sort_keys : List (List ℕ) → List (List ℕ)
unfolding insert_key
sort_keys [] = []
sort_keys (k ∷ rest) = insert_key k (sort_keys rest)

-- `dedup`: equal neighbours become one.
unfoldable pub dedup : List (List ℕ) → List (List ℕ)
dedup [] = []
dedup (k ∷ []) = k ∷ []
dedup (k ∷ l ∷ rest) = let more = dedup (l ∷ rest) in if bytes_eq k l then more else k ∷ more

unfoldable pub build : List (List ℕ) → Surf
unfolding sort_keys dedup
build keys = record { keys = dedup (sort_keys keys) }

unfoldable pub is_empty : Surf → Bool
is_empty s = length s.keys == 0

unfoldable pub len : Surf → ℕ
len s = length s.keys

unfoldable pub range_from : List (List ℕ) → List ℕ → List ℕ → Bool
range_from [] left right = false
range_from (k ∷ rest) left right =
    let later = range_from rest left right in if text_le left k then text_le k right else later

unfoldable pub has_key : List (List ℕ) → List ℕ → Bool
has_key [] key = false
has_key (k ∷ rest) key = let later = has_key rest key in if bytes_eq k key then true else later

-- A key that is `left` itself is found whatever `right` is.
unfoldable pub range_lookup : Surf → List ℕ → List ℕ → Bool
unfolding range_from has_key
range_lookup s left right = if has_key s.keys left then true else range_from s.keys left right

unfoldable pub total_len : List (List ℕ) → ℕ
total_len [] = 0
total_len (k ∷ rest) = length k + total_len rest

unfoldable pub approx_mem_usage : Surf → ℕ
unfolding total_len
approx_mem_usage s = total_len s.keys + length s.keys * 24
