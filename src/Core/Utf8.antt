-- ===== src/Core/Utf8.antt =====
-- `String::from_utf8`: which bytes are a text. One byte at a time, with the count of continuation
-- bytes that must follow and the bounds of the next one.
use orthos_i_dart_tpx.Base.{
  ℕ, zero, suc, List, [], ◌∷◌, Bool, true, false, leb, ltb, ◌==◌, ◌&&◌, if◌then◌else◌, Option, none,
  some,
}

-- What the first byte of a character asks of the rest.
unfoldable pub lead : ℕ → Option (ℕ × ℕ × ℕ)
lead b =
    if ltb b 0x80
    then some (0, 0x80, 0xBF)
    else if ltb b 0xC2
    then none
    else if ltb b 0xE0
    then some (1, 0x80, 0xBF)
    else if b == 0xE0
    then some (2, 0xA0, 0xBF)
    else if b == 0xED
    then some (2, 0x80, 0x9F)
    else if ltb b 0xF0
    then some (2, 0x80, 0xBF)
    else if b == 0xF0
    then some (3, 0x90, 0xBF)
    else if ltb b 0xF4
    then some (3, 0x80, 0xBF)
    else if b == 0xF4
    then some (3, 0x80, 0x8F)
    else none

unfoldable pub utf8_from : ℕ → ℕ → ℕ → List ℕ → Bool
utf8_from zero lo hi [] = true
utf8_from (suc n) lo hi [] = false
utf8_from zero lo hi (b ∷ bs) = elim (lead b) [ none ↦ false | some (n, l, h) ↦ utf8_from n l h bs ]
utf8_from (suc n) lo hi (b ∷ bs) =
    let rest = utf8_from n 0x80 0xBF bs in (leb lo b && leb b hi) && rest

unfoldable pub is_utf8 : List ℕ → Bool
unfolding utf8_from lead
is_utf8 bytes = utf8_from 0 0x80 0xBF bytes
