-- ===== src/Codec/Chimp128/Decoder.antt =====
-- `Chimp128Decoder`. `read_bit` never fails in the source, so a reading step has no error case.
use orthos_i_dart_tpx.Base.{
  ℕ, zero, suc, ◌+◌, ◌-◌, ◌*◌, ◌/◌, ◌%◌, ◌^◌, bit_or, bit_xor, List, [], ◌∷◌, length, ltb, leb,
  ◌==◌, if◌then◌else◌, get_or, Option, none, some,
}
use orthos_i_dart_tpx.Core.Error.{Result, ok, err, buffer_too_small, ◌>>=◌}
use orthos_i_dart_tpx.Core.Cursor.{read_le}
use orthos_i_dart_tpx.Codec.Chimp128.{Window, fresh_window, significant, remember, remember_first}

pub record BitReader : Type 0 where
  pub cursor : List ℕ
  pub current_byte : ℕ
  pub bits_in_byte_left : ℕ

-- The refill of `read_bit`: past the end of the data a zero byte.
unfoldable pub refill : BitReader → BitReader
refill r = elim (r.cursor) [
  | [] ↦ record { cursor = []; current_byte = 0; bits_in_byte_left = 8 }
  | b ∷ rest ↦ record { cursor = rest; current_byte = b; bits_in_byte_left = 8 }
]

unfoldable pub read_bit : BitReader → ℕ × BitReader
read_bit r =
    let r' = if r.bits_in_byte_left == 0 then refill r else r in
    let left = r'.bits_in_byte_left - 1 in
    (r'.current_byte / 2 ^ left % 2, record r' { bits_in_byte_left = left })

-- The loop of `read_bits`, with the rounds left and the result so far.
unfoldable pub read_loop : ℕ → ℕ → BitReader → ℕ × BitReader
read_loop zero result r = (result, r)
read_loop (suc n) result r =
    let (bit, r') = read_bit r in read_loop n (bit_or (result * 2 % 2 ^ 64) bit) r'

unfoldable pub read_bits : ℕ → BitReader → ℕ × BitReader
read_bits num_bits r = read_loop num_bits 0 r

-- The xor, with the window and the reader after it. A shift by 64 or more, which only a damaged
-- stream asks for, takes the amount modulo 64, as a release build does.
unfoldable pub decode_xor_payload : Window × BitReader → ℕ × Window × BitReader
decode_xor_payload (v, r) =
    let (is_new, r1) = read_bits 1 r in
    if is_new == 1
    then (let (lz, r2) = read_bits 6 r1 in
        let (tz, r3) = read_bits 6 r2 in
        let (meaningful, r4) = read_bits (significant lz tz) r3 in
        (
          meaningful * 2 ^ (tz % 64) % 2 ^ 64,
          record v { prev_leading_zeros = lz; prev_trailing_zeros = tz },
          r4,
        ))
    else (let (meaningful, r4) =
          read_bits (significant v.prev_leading_zeros v.prev_trailing_zeros) r1 in
        (meaningful * 2 ^ (v.prev_trailing_zeros % 64) % 2 ^ 64, v, r4))

-- `decode_u64_internal` once a value has been decoded.
unfoldable pub decode_next : Window × BitReader → ℕ × Window × BitReader
decode_next (v, r) =
    let (first_bit, r1) = read_bits 1 r in
    let (val, v', r') =
      if first_bit == 0
      then (let (second_bit, r2) = read_bits 1 r1 in
          if second_bit == 0
          then (v.prev_val, v, r2)
          else (let (hist_idx, r3) = read_bits 7 r2 in
              let base_val = get_or v.history (hist_idx % 128) 0 in
              let (xor, v', r4) = decode_xor_payload (v, r3) in (bit_xor base_val xor, v', r4)))
      else (let (xor, v', r2) = decode_xor_payload (v, r1) in (bit_xor v.prev_val xor, v', r2)) in
    (val, remember val v', r')

unfoldable pub decode_u64_internal : ℕ → Window × BitReader → ℕ × Window × BitReader
decode_u64_internal decoded_count (v, r) =
    if decoded_count == 0
    then (let (val, r') = read_bits 64 r in (val, remember_first val v, r'))
    else decode_next (v, r)

pub record Decoder : Type 0 where
  pub window : Window
  pub reader : BitReader
  pub total_count : ℕ
  pub decoded_count : ℕ

-- `Chimp128Decoder::new`.
unfoldable pub new_decoder : List ℕ → Result Decoder
new_decoder bytes =
    if ltb (length bytes) 4
    then err (buffer_too_small "Chimp128Decoder" 4 (length bytes))
    else read_le 4 bytes >>= λ t. ok (record {
      window = fresh_window;
      reader = record { cursor = t.1; current_byte = 0; bits_in_byte_left = 0 };
      total_count = t.0;
      decoded_count = 0;
    })

-- `decode_f64`, and `decode_f32` with the top 32 bits moved down.
unfoldable pub decode_f64 : Decoder → Option (ℕ × Decoder)
decode_f64 d =
    if leb d.total_count d.decoded_count
    then none
    else (let (val, v, r) = decode_u64_internal d.decoded_count (d.window, d.reader) in
        some (
          val,
          record d { window = v; reader = r; decoded_count = (d.decoded_count + 1) % 2 ^ 32 },
        ))

shift_down : Option (ℕ × Decoder) → Option (ℕ × Decoder)
shift_down none = none
shift_down (some (val, d)) = some (val / 2 ^ 32 % 2 ^ 32, d)

unfoldable pub decode_f32 : Decoder → Option (ℕ × Decoder)
unfolding shift_down
decode_f32 d = shift_down (decode_f64 d)
