-- ===== src/Index/RadixSpline.antt =====
-- crates/tpx-index/src/radix_spline.rs: hashes in order with the positions of their entries. A binary
-- search of the sorted hashes is a count of the smaller ones.
use orthos_i_dart_tpx.Base.{
  ℕ, ◌+◌, ◌-◌, List, [], ◌∷◌, length, get_or, ltb, leb, ◌==◌, if◌then◌else◌,
}

pub record RadixSpline : Type 0 where
  pub keys : List ℕ
  pub positions : List ℕ

-- `build`; the lists have one length.
unfoldable pub build : List ℕ → List ℕ → RadixSpline
build sorted_keys positions = record { keys = sorted_keys; positions = positions }

unfoldable pub count_below : ℕ → List ℕ → ℕ
count_below key [] = 0
count_below key (k ∷ rest) = let more = count_below key rest in if ltb k key then 1 + more else more

unfoldable pub count_upto : ℕ → List ℕ → ℕ
count_upto key [] = 0
count_upto key (k ∷ rest) = let more = count_upto key rest in if leb k key then 1 + more else more

-- `lookup`: for a hash that is there, the positions at the first and the last place of it; for any
-- other, those of its neighbours.
unfoldable pub lookup : RadixSpline → ℕ → ℕ × ℕ
unfolding count_below count_upto
lookup s key =
    let lo_idx = count_below key s.keys in
    let end = count_upto key s.keys in
    if length s.keys == 0
    then (0, 0)
    else if ltb lo_idx end
    then (get_or s.positions lo_idx 0, get_or s.positions (end - 1) 0)
    else (
      (if ltb 0 lo_idx then get_or s.positions (lo_idx - 1) 0 else 0),
      (if ltb lo_idx (length s.positions)
          then get_or s.positions lo_idx 0
          else get_or s.positions (length s.positions - 1) 0),
    )
