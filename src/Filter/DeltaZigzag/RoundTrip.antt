-- ===== src/Filter/DeltaZigzag/RoundTrip.antt =====
-- `decode` undoes `encode` on every block of bytes, for every type.
use orthos_i_dart_tpx.Base.{
  ℕ, zero, suc, ◌+◌, ◌-◌, ◌*◌, ◌/◌, ◌%◌, ◌^◌, ◌≤◌, ◌<◌, ◌≡◌, refl, arith, List, [], ◌∷◌, ◌++◌,
  length, take, drop, All, IsByte, take-append_len, drop-append_len, take-append-drop,
  length-append, length-drop, length-take, All-drop, All-take,
}
use orthos_i_dart_tpx.Core.Cursor.{write_le, length-write_le}
use orthos_i_dart_tpx.Core.DType.{
  DTypeId, int64, int32, int16, int8, uint64, uint32, uint16, uint8, bool,
}
use orthos_i_dart_tpx.Filter.DeltaZigzag.{
  from_le, zigzag, unzigzag, encode_loop, decode_loop, encode_width, decode_width, encode, decode,
}
use orthos_i_dart_tpx.Filter.DeltaZigzag.Zigzag.{zigzag-lt, unzigzag-zigzag}
use native.Mathlib.Decide.{dec_le}
use native.Mathlib.Nat.{div-mul-le_self, one-le-pow, mod-eq_of_lt, pow-suc, mod-lt, add-mod_right}

pub from_le-write_le : (w n : ℕ) → n < 256 ^ w → from_le (write_le w n) ≡ n
unfolding from_le write_le
from_le-write_le zero n h = omega arith
from_le-write_le (suc w) n h =
    omega (arith, pow-suc 256 w, from_le-write_le w (n / 256) (omega (arith, pow-suc 256 w)))

pub write_le-from_le : (bs : List ℕ) → All IsByte bs → write_le (length bs) (from_le bs) ≡ bs
unfolding from_le write_le
write_le-from_le [] v = refl
write_le-from_le (b ∷ bs) (vb, vs) = ground (arith, write_le-from_le bs vs)

pub from_le-lt : (bs : List ℕ) → All IsByte bs → from_le bs < 256 ^ length bs
unfolding from_le
from_le-lt [] v = omega arith
from_le-lt (b ∷ bs) (vb, vs) = omega (arith, pow-suc 256 (length bs), from_le-lt bs vs)

-- 256 ^ w is a power of two with a predecessor, for a width of at least one byte.
modulus_pow : (v : ℕ) → 256 ^ suc v ≡ 2 ^ suc (8 * v + 7)
modulus_pow zero = refl
modulus_pow (suc v) =
    let eight : 8 * suc v + 7 ≡ suc (suc (suc (suc (suc (suc (suc (suc (8 * v + 7)))))))) =
      omega arith in
    rw eight (
      omega (
        arith,
        modulus_pow v,
        pow-suc 256 (suc v),
        pow-suc 2 (suc (suc (suc (suc (suc (suc (suc (suc (8 * v + 7))))))))),
        pow-suc 2 (8 * v + 7),
        pow-suc 2 (suc (8 * v + 7)),
        pow-suc 2 (suc (suc (8 * v + 7))),
        pow-suc 2 (suc (suc (suc (8 * v + 7)))),
        pow-suc 2 (suc (suc (suc (suc (8 * v + 7))))),
        pow-suc 2 (suc (suc (suc (suc (suc (8 * v + 7)))))),
        pow-suc 2 (suc (suc (suc (suc (suc (suc (8 * v + 7))))))),
        pow-suc 2 (suc (suc (suc (suc (suc (suc (suc (8 * v + 7)))))))),
      ))

-- Taking the difference to `prev` and adding it again is the identity, mod the width.
delta_back : (m val prev : ℕ) → val < m → prev < m → (prev + (val + m - prev) % m) % m ≡ val
delta_back m val prev hv hp = elim (dec_le prev val) [
  | yes le ↦
      let e : val + m - prev ≡ (val - prev) + m = omega arith in
      let f : prev + (val - prev) ≡ val = omega arith in
      rw (e, add-mod_right, mod-eq_of_lt {n = val - prev} {m = m} (omega arith), f)
        (mod-eq_of_lt hv)
  | no gt ↦
      let e : prev + (val + m - prev) ≡ val + m = omega arith in
      rw (mod-eq_of_lt {n = val + m - prev} {m = m} (omega arith), e, add-mod_right)
        (mod-eq_of_lt hv)
]

unzigzag_word :
    (v delta : ℕ)
    → delta < 256 ^ suc v
    → unzigzag (256 ^ suc v) (zigzag (256 ^ suc v) delta) ≡ delta
unzigzag_word v delta h =
    rw (modulus_pow v) (unzigzag-zigzag (8 * v + 7) delta (rw (modulus_pow v) at h))

-- What a decoded word is, from the bytes that the encoder wrote for it.
word_back :
    (v val prev : ℕ)
    → val < 256 ^ suc v
    → prev < 256 ^ suc v
    → (prev
          + unzigzag (256 ^ suc v) (
              from_le (
                write_le
                  (suc v)
                  (zigzag (256 ^ suc v) ((val + 256 ^ suc v - prev) % 256 ^ suc v)))))
        % 256 ^ suc v
      ≡ val
word_back v val prev hv hp =
    let delta = (val + 256 ^ suc v - prev) % 256 ^ suc v in
    let small : delta < 256 ^ suc v = mod-lt _ (omega arith) in
    let code : zigzag (256 ^ suc v) delta < 256 ^ suc v =
      rw (modulus_pow v) (zigzag-lt (8 * v + 7) _ (rw (modulus_pow v) at small)) in
    rw (from_le-write_le (suc v) _ code, unzigzag_word v delta small) (delta_back _ val prev hv hp)

front_len :
    (v count : ℕ) (bytes : List ℕ)
    → suc count * suc v ≤ length bytes
    → length (take (suc v) bytes) ≡ suc v
front_len v count bytes h = omega (arith, length-take (suc v) bytes, h)

rest_len :
    (v count : ℕ) (bytes : List ℕ)
    → suc count * suc v ≤ length bytes
    → count * suc v ≤ length (drop (suc v) bytes)
rest_len v count bytes h = omega (arith, length-drop (suc v) bytes, h)

take-write_le : (w z : ℕ) (rest : List ℕ) → take w (write_le w z ++ rest) ≡ write_le w z
take-write_le w z rest = take-append_len w (write_le w z) rest (length-write_le w z)

drop-write_le : (w z : ℕ) (rest : List ℕ) → drop w (write_le w z ++ rest) ≡ rest
drop-write_le w z rest = drop-append_len w (write_le w z) rest (length-write_le w z)

loop_back :
    (v count prev : ℕ) (bytes : List ℕ)
    → count * suc v ≤ length bytes
    → prev < 256 ^ suc v
    → All IsByte bytes
    → decode_loop (suc v) count prev (encode_loop (suc v) count prev bytes) ≡ bytes
unfolding decode_loop encode_loop
loop_back v zero prev bytes h hp vb = refl
loop_back v (suc count) prev bytes h hp vb =
    let front : length (take (suc v) bytes) ≡ suc v = front_len v count bytes h in
    let vf = All-take IsByte (suc v) bytes vb in
    let fits : from_le (take (suc v) bytes) < 256 ^ suc v = rw front at (from_le-lt _ vf) in
    let same : write_le (suc v) (from_le (take (suc v) bytes)) ≡ take (suc v) bytes =
      rw front at (write_le-from_le _ vf) in
    rw
      (
        take-write_le,
        drop-write_le,
        word_back v (from_le (take (suc v) bytes)) prev fits hp,
        loop_back v count (from_le (take (suc v) bytes)) (drop (suc v) bytes)
            (rest_len v count bytes h) fits (All-drop IsByte (suc v) bytes vb),
        same,
      )
      (take-append-drop (suc v) bytes)

length-encode_loop :
    (w count prev : ℕ) (bytes : List ℕ)
    → count * w ≤ length bytes
    → length (encode_loop w count prev bytes) ≡ length bytes
unfolding encode_loop
length-encode_loop w zero prev bytes h = refl
length-encode_loop w (suc count) prev bytes h = omega (
  arith,
  length-append
      (write_le w (zigzag (256 ^ w) ((from_le (take w bytes) + 256 ^ w - prev) % 256 ^ w)))
      (encode_loop w count (from_le (take w bytes)) (drop w bytes)),
  length-write_le w (zigzag (256 ^ w) ((from_le (take w bytes) + 256 ^ w - prev) % 256 ^ w)),
  length-drop w bytes,
  length-encode_loop w count (from_le (take w bytes)) (drop w bytes)
      (omega (arith, length-drop w bytes)),
)

width_back :
    (v : ℕ) (bytes : List ℕ)
    → All IsByte bytes
    → decode_width (suc v) (encode_width (suc v) bytes) ≡ bytes
unfolding decode_width encode_width
width_back v bytes vb =
    let whole : length bytes / suc v * suc v ≤ length bytes = div-mul-le_self _ _ in
    ground (
      arith,
      length-encode_loop (suc v) (length bytes / suc v) 0 bytes whole,
      loop_back v (length bytes / suc v) 0 bytes whole (one-le-pow (suc v) 256 (omega arith)) vb,
    )

pub length-encode : (bytes : List ℕ) (dtype : DTypeId) → length (encode bytes dtype) ≡ length bytes
unfolding encode encode_width
length-encode bytes int64 =
    ground (arith, length-encode_loop 8 (length bytes / 8) 0 bytes (omega arith))
length-encode bytes uint64 =
    ground (arith, length-encode_loop 8 (length bytes / 8) 0 bytes (omega arith))
length-encode bytes int32 =
    ground (arith, length-encode_loop 4 (length bytes / 4) 0 bytes (omega arith))
length-encode bytes uint32 =
    ground (arith, length-encode_loop 4 (length bytes / 4) 0 bytes (omega arith))
length-encode bytes int16 =
    ground (arith, length-encode_loop 2 (length bytes / 2) 0 bytes (omega arith))
length-encode bytes uint16 =
    ground (arith, length-encode_loop 2 (length bytes / 2) 0 bytes (omega arith))
length-encode bytes int8 =
    ground (arith, length-encode_loop 1 (length bytes / 1) 0 bytes (omega arith))
length-encode bytes uint8 =
    ground (arith, length-encode_loop 1 (length bytes / 1) 0 bytes (omega arith))
length-encode bytes bool =
    ground (arith, length-encode_loop 1 (length bytes / 1) 0 bytes (omega arith))
length-encode bytes _ = refl

-- For every element type, `decode` gives back the block that `encode` was given, a tail shorter
-- than an element included.
pub decode-encode :
    (bytes : List ℕ) (dtype : DTypeId)
    → All IsByte bytes
    → decode (encode bytes dtype) dtype ≡ bytes
unfolding decode encode
decode-encode bytes int64 v = width_back 7 bytes v
decode-encode bytes uint64 v = width_back 7 bytes v
decode-encode bytes int32 v = width_back 3 bytes v
decode-encode bytes uint32 v = width_back 3 bytes v
decode-encode bytes int16 v = width_back 1 bytes v
decode-encode bytes uint16 v = width_back 1 bytes v
decode-encode bytes int8 v = width_back 0 bytes v
decode-encode bytes uint8 v = width_back 0 bytes v
decode-encode bytes bool v = width_back 0 bytes v
decode-encode bytes _ v = refl
