-- ===== src/Codec/Chimp128.antt =====
-- crates/tpx-codec/src/chimp128.rs. A float is its bit pattern. The five fields that the encoder
-- and the decoder both keep about earlier values are a `Window`, the encoder's three bit fields a
-- `BitWriter`, the decoder's cursor and bit fields a `BitReader`. Arithmetic is that of a release
-- build.
pub mod Stream
pub mod Zeros
pub mod Decoder
pub mod XorPayload
pub mod Value
pub mod RoundTrip
use orthos_i_dart_tpx.Base.{
  ℕ, zero, suc, ◌+◌, ◌-◌, ◌*◌, ◌/◌, ◌%◌, ◌^◌, min, max, bit_or, bit_xor, List, [], ◌∷◌, ◌++◌,
  length, Bool, true, false, ltb, leb, ◌==◌, ◌&&◌, not, if◌then◌else◌, get_or, set, replicate,
  Option, none, some,
}
use orthos_i_dart_tpx.Core.Error.{Result, ok, err, buffer_too_small, ◌>>=◌}
use orthos_i_dart_tpx.Core.Cursor.{write_le, read_le}

pub record Window : Type 0 where
  pub history : List ℕ
  pub history_idx : ℕ
  pub prev_val : ℕ
  pub prev_leading_zeros : ℕ
  pub prev_trailing_zeros : ℕ

-- `u8::MAX` marks zero bounds that are not set.
abbrev pub fresh_window : Window
fresh_window = record {
  history = replicate 128 0;
  history_idx = 0;
  prev_val = 0;
  prev_leading_zeros = 255;
  prev_trailing_zeros = 255;
}

pub record BitWriter : Type 0 where
  pub bits_buffer : ℕ
  pub bits_count : ℕ
  pub output : List ℕ

pub record Encoder : Type 0 where
  pub window : Window
  pub writer : BitWriter
  pub count : ℕ

-- `Chimp128Encoder::new`.
abbrev pub new_encoder : Encoder
new_encoder = record {
  window = fresh_window;
  writer = record { bits_buffer = 0; bits_count = 0; output = [] };
  count = 0;
}

-- The body of the loop of `write_bits`.
unfoldable pub push_bit : ℕ → BitWriter → BitWriter
push_bit bit w =
    let buffer = bit_or (w.bits_buffer * 2 % 2 ^ 64) bit in
    if w.bits_count + 1 == 8
    then record { bits_buffer = 0; bits_count = 0; output = w.output ++ (buffer % 256 ∷ []) }
    else record { bits_buffer = buffer; bits_count = w.bits_count + 1; output = w.output }

-- `write_bits(value, num_bits)`, highest bit first.
unfoldable pub write_bits : ℕ → ℕ → BitWriter → BitWriter
write_bits value zero w = w
write_bits value (suc i) w = write_bits value i (push_bit (value / 2 ^ i % 2) w)

-- Binary digits of a number, with fuel for 64.
unfoldable pub bit_length : ℕ → ℕ → ℕ
bit_length zero x = 0
bit_length (suc f) x = let rest = bit_length f (x / 2) in if x == 0 then 0 else suc rest

-- `u64::leading_zeros` and `u64::trailing_zeros`.
unfoldable pub leading_zeros : ℕ → ℕ
unfolding bit_length
leading_zeros x = 64 - bit_length 64 x

unfoldable pub low_zeros : ℕ → ℕ → ℕ
low_zeros zero x = 0
low_zeros (suc f) x = let rest = low_zeros f (x / 2) in if x % 2 == 0 then suc rest else 0

unfoldable pub trailing_zeros : ℕ → ℕ
unfolding low_zeros
trailing_zeros x = low_zeros 64 x

-- `64u8.saturating_sub(lz).saturating_sub(tz).max(1)`.
abbrev pub significant : ℕ → ℕ → ℕ
significant lz tz = max (64 - lz - tz) 1

pub record Payload : Type 0 where
  pub leading : ℕ
  pub trailing : ℕ
  pub bits : ℕ
  pub value : ℕ

-- The tuple that `encode_xor_payload` works with.
unfoldable pub payload_of : ℕ → Payload
payload_of xor =
    if xor == 0
    then record { leading = 63; trailing = 0; bits = 1; value = 0 }
    else (let lz = min (leading_zeros xor) 63 in
        let tz = min (trailing_zeros xor) 63 in
        record { leading = lz; trailing = tz; bits = significant lz tz; value = xor / 2 ^ tz })

unfoldable pub encode_xor_payload : ℕ → Window × BitWriter → Window × BitWriter
encode_xor_payload xor (v, w) =
    let p = payload_of xor in
    if not (v.prev_leading_zeros == 255)
      && (p.leading == v.prev_leading_zeros && p.trailing == v.prev_trailing_zeros)
    then (v, write_bits p.value p.bits (write_bits 0 1 w))
    else (
      record v { prev_leading_zeros = p.leading; prev_trailing_zeros = p.trailing },
      write_bits p.value p.bits
          (write_bits p.trailing 6 (write_bits p.leading 6 (write_bits 1 1 w))),
    )

-- The search loop: the entries from index `i` on, the best xor and its index so far.
unfoldable pub search_history : ℕ → List ℕ → ℕ → ℕ → Option ℕ → ℕ × Option ℕ
search_history val [] i best_xor best_idx = (best_xor, best_idx)
search_history val (h ∷ hs) i best_xor best_idx =
    let better = ltb (leading_zeros best_xor) (leading_zeros (bit_xor val h)) in
    search_history val hs (i + 1) (if better then bit_xor val h else best_xor)
      (if better then some i else best_idx)

-- Both sides end a value by storing it.
unfoldable pub remember : ℕ → Window → Window
remember val v = record v {
  prev_val = val;
  history = set v.history (v.history_idx % 128) val;
  history_idx = v.history_idx + 1;
}

-- The first value on both sides.
unfoldable pub remember_first : ℕ → Window → Window
remember_first val v = record v { prev_val = val; history = set v.history 0 val; history_idx = 1 }

unfoldable pub encode_xor : ℕ → ℕ × Option ℕ → Window × BitWriter → Window × BitWriter
encode_xor xor (best_xor, some idx) (v, w) =
    encode_xor_payload best_xor (v, write_bits idx 7 (write_bits 1 2 w))
encode_xor xor (best_xor, none) (v, w) = encode_xor_payload xor (v, write_bits 1 1 w)

-- `encode_u64_internal` once the count is not 0.
unfoldable pub encode_next : ℕ → Window × BitWriter → Window × BitWriter
unfolding encode_xor
encode_next val (v, w) =
    let xor = bit_xor val v.prev_val in
    let (v', w') =
      if xor == 0
      then (v, write_bits 0 2 w)
      else encode_xor xor (search_history val v.history 0 xor none) (v, w) in
    (remember val v', w')

unfoldable pub encode_u64_internal : ℕ → ℕ → Window × BitWriter → Window × BitWriter
encode_u64_internal count val (v, w) =
    if count == 0 then (remember_first val v, write_bits val 64 w) else encode_next val (v, w)

-- `encode_f64`, and `encode_f32` with the 32 bits moved to the top.
unfoldable pub encode_f64 : ℕ → Encoder → Encoder
encode_f64 bits e =
    let (v, w) = encode_u64_internal e.count bits (e.window, e.writer) in
    record { window = v; writer = w; count = (e.count + 1) % 2 ^ 32 }

unfoldable pub encode_f32 : ℕ → Encoder → Encoder
encode_f32 bits e = encode_f64 (bits * 2 ^ 32 % 2 ^ 64) e

unfoldable pub flush : BitWriter → List ℕ
flush w =
    if ltb 0 w.bits_count
    then w.output ++ (w.bits_buffer * 2 ^ (8 - w.bits_count) % 256 ∷ [])
    else w.output

unfoldable pub finish : Encoder → List ℕ
unfolding flush
finish e = write_le 4 e.count ++ flush e.writer
