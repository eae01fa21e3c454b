-- ===== src/Codec/Chimp128/RoundTrip.antt =====
-- Decoding what was encoded gives the values back. `encode_all` and `decode_values` are the loops of
-- `Chimp128Codec` in crates/tpx-codec/src/lib.rs for f64; the second takes fuel, and one round more
-- than there are values is enough.
use orthos_i_dart_tpx.Base.{
  ℕ, zero, suc, ◌+◌, ◌-◌, ◌%◌, ◌^◌, ◌<◌, ◌≡◌, ◌∙◌, refl, arith, sym, ◌==◌, leb, ltb, List, [], ◌∷◌,
  ◌++◌, length, append_assoc, true, false, Option, none, some, All, get_or, replicate,
  length-append, length-set, IsU64, append-nil,
}
use native.Mathlib.Nat.{mod-eq_of_lt}
use orthos_i_dart_tpx.Core.Error.{Result, ok, ◌>>=◌}
use orthos_i_dart_tpx.Core.Cursor.{write_le, read_le-write_le, length-write_le}
use orthos_i_dart_tpx.Codec.Chimp128.{
  Window, fresh_window, BitWriter, Encoder, new_encoder, encode_f64, encode_u64_internal,
  write_bits, remember_first, flush, finish,
}
use orthos_i_dart_tpx.Codec.Chimp128.Decoder.{
  BitReader, Decoder, new_decoder, decode_f64, decode_u64_internal,
}
use orthos_i_dart_tpx.Codec.Chimp128.Stream.{
  msb_bits, written, IsWriter, write_bits-written, unread, read_bits-unread, flush-written, zeros,
}
use orthos_i_dart_tpx.Codec.Chimp128.XorPayload.{Gives, Trip}
use orthos_i_dart_tpx.Codec.Chimp128.Value.{IsWindow, encode_next-Written, set-small}

unfoldable pub encode_all : List ℕ → Encoder → Encoder
encode_all [] e = e
encode_all (x ∷ xs) e = encode_all xs (encode_f64 x e)

unfoldable pub push : ℕ → Option (List ℕ) → Option (List ℕ)
push x none = none
push x (some xs) = some (x ∷ xs)

unfoldable pub decode_values : ℕ → Decoder → Option (List ℕ)
decode_values zero d = none
decode_values (suc fuel) d = elim (decode_f64 d) [
  | none ↦ some []
  | some (x, d') ↦ push x (decode_values fuel d')
]

unfoldable pub decompress_values : ℕ → List ℕ → Result (Option (List ℕ))
decompress_values fuel bytes = new_decoder bytes >>= λ d. ok (decode_values fuel d)

get_or-replicate : (n i : ℕ) → ◌≡◌ {A = ℕ} (get_or (replicate n 0) i 0) 0
get_or-replicate zero i = refl
get_or-replicate (suc n) zero = refl
get_or-replicate (suc n) (suc i) = get_or-replicate n i

fresh-IsWindow : IsWindow fresh_window
fresh-IsWindow = record {
  places = refl;
  small = λ i. omega (arith, get_or-replicate 128 i);
  previous = omega arith;
}

-- The first value is written in full.
first-Trip :
    (val : ℕ) (v : Window) (w : BitWriter)
    → val < 2 ^ 64
    → IsWriter w
    → Trip val (remember_first val v) w (write_bits val 64 w) (λ r. decode_u64_internal 0 (v, r))
unfolding decode_u64_internal
first-Trip val v w small h =
    let (h1, e1) = write_bits-written val 64 w h in
    record {
      bits = msb_bits val 64;
      writer = h1;
      appended = e1;
      gives = λ r rest e.
          let (b, u) = read_bits-unread 64 val r rest (omega arith) small e in rw b (refl, refl, u);
    }

remember_first-IsWindow :
    (val : ℕ) (v : Window) → val < 2 ^ 64 → IsWindow v → IsWindow (remember_first val v)
unfolding remember_first
remember_first-IsWindow val v h good = record {
  places = length-set v.history 0 val ∙ good.places;
  small = λ i. set-small v.history 0 i val h good.small;
  previous = h;
}

abbrev Coded : ℕ → ℕ → Window → BitWriter → Window × BitWriter → Type 0
Coded count val v w t = IsWindow t.0 × Trip val t.0 w t.1 (λ r. decode_u64_internal count (v, r))

-- Any value, first or later.
value-Coded :
    (count val : ℕ) (v : Window) (w : BitWriter)
    → val < 2 ^ 64
    → IsWindow v
    → IsWriter w
    → Coded count val v w (encode_u64_internal count val (v, w))
unfolding encode_u64_internal decode_u64_internal
value-Coded zero val v w small good h =
    (remember_first-IsWindow val v small good, first-Trip val v w small h)
value-Coded (suc n) val v w small good h =
    let later : (suc n == 0) ≡ false = ground arith in
    rw later (encode_next-Written val v w small good h)

-- The state of an encoder, and the one of a decoder.
abbrev encoding : Window → BitWriter → ℕ → Encoder
encoding v w count = record { window = v; writer = w; count = count }

abbrev decoding : Window → BitReader → ℕ → ℕ → Decoder
decoding v r total count = record {
  window = v;
  reader = r;
  total_count = total;
  decoded_count = count;
}

-- The values that follow can be decoded from what the encoder has appended.
record Decodes (count : ℕ) (xs : List ℕ) (v : Window) (w : BitWriter) (e : Encoder) : Type 0 where
  bits : List ℕ
  writer : IsWriter e.writer
  counted : e.count ≡ count + length xs
  appended : written e.writer ≡ written w ++ bits
  gives :
      (r : BitReader) (rest : List ℕ) (fuel : ℕ)
      → length xs < fuel
      → unread r ≡ bits ++ rest
      → decode_values fuel (decoding v r (count + length xs) count) ≡ some xs

encode_one :
    (x count : ℕ) (v : Window) (w : BitWriter)
    → count + 1 < 2 ^ 32
    → encode_f64 x (encoding v w count)
      ≡ encoding
          (encode_u64_internal count x (v, w)).0
          (encode_u64_internal count x (v, w)).1
          (count + 1)
unfolding encode_f64
encode_one x count v w h = rw (mod-eq_of_lt h) refl

decode_one :
    (x count total : ℕ) (v v' : Window) (r : BitReader) (rest : List ℕ)
    → count < total
    → total < 2 ^ 32
    → Gives x v' rest (decode_u64_internal count (v, r))
    → decode_f64 (decoding v r total count)
      ≡ some (x, decoding v' (decode_u64_internal count (v, r)).2 total (count + 1))
unfolding decode_f64
decode_one x count total v v' r rest h small (ex, ev, eu) =
    let more : leb total count ≡ false = ground arith in
    let next : (count + 1) % 2 ^ 32 ≡ count + 1 = omega arith in rw (more, ex, ev, next) refl

values_end : (fuel : ℕ) (d : Decoder) → decode_f64 d ≡ none → decode_values (suc fuel) d ≡ some []
unfolding decode_values
values_end fuel d e = rw (e, decode_values) refl

values_more :
    (fuel x : ℕ) (d d' : Decoder) (xs : List ℕ)
    → decode_f64 d ≡ some (x, d')
    → decode_values fuel d' ≡ some xs
    → decode_values (suc fuel) d ≡ some (x ∷ xs)
unfolding decode_values push
values_more fuel x d d' xs e h = rw (e, decode_values) (rw h refl)

finished :
    (count : ℕ) (v : Window) (r : BitReader) → decode_f64 (decoding v r (count + 0) count) ≡ none
unfolding decode_f64
finished count v r = let stop : leb (count + 0) count ≡ true = ground arith in rw stop refl

no_value :
    (count : ℕ) (v : Window) (r : BitReader) (fuel : ℕ)
    → 0 < fuel
    → decode_values fuel (decoding v r (count + 0) count) ≡ some []
no_value count v r zero p = absurd (omega arith)
no_value count v r (suc f) p = values_end f (decoding v r (count + 0) count) (finished count v r)

one_value :
    (x count total : ℕ) (xs : List ℕ) (v v' : Window) (r : BitReader) (rest : List ℕ) (fuel : ℕ)
    → count < total
    → total < 2 ^ 32
    → suc (length xs) < fuel
    → Gives x v' rest (decode_u64_internal count (v, r))
    → ((r' : BitReader) (f : ℕ)
        → length xs < f
        → unread r' ≡ rest
        → decode_values f (decoding v' r' total (count + 1)) ≡ some xs)
    → decode_values fuel (decoding v r total count) ≡ some (x ∷ xs)
one_value x count total xs v v' r rest zero h small p g k = absurd (omega arith)
one_value x count total xs v v' r rest (suc f) h small p g k =
    let r' = (decode_u64_internal count (v, r)).2 in
    values_more f x (decoding v r total count) (decoding v' r' total (count + 1)) xs
      (decode_one x count total v v' r rest h small g) (k r' f (omega arith) g.2)

encode_all-Decodes :
    (xs : List ℕ) (count : ℕ) (v : Window) (w : BitWriter)
    → All IsU64 xs
    → count + length xs < 2 ^ 32
    → IsWindow v
    → IsWriter w
    → Decodes count xs v w (encode_all xs (encoding v w count))
unfolding encode_all
encode_all-Decodes [] count v w small room good h = record {
  bits = [];
  writer = h;
  counted = omega arith;
  appended = sym (append-nil (written w));
  gives = λ r rest fuel enough e. no_value count v r fuel enough;
}
encode_all-Decodes (x ∷ xs) count v w (lt, small) room good h =
    let (good', t) = value-Coded count x v w lt good h in
    let out = encode_u64_internal count x (v, w) in
    let one = encode_one x count v w (omega arith) in
    let d = encode_all-Decodes xs (count + 1) out.0 out.1 small (omega arith) good' t.writer in
    let total : count + 1 + length xs ≡ count + suc (length xs) = omega arith in
    rw one record {
      bits = t.bits ++ d.bits;
      writer = d.writer;
      counted = d.counted ∙ total;
      appended = d.appended ∙ rw (t.appended, append_assoc) refl;
      gives = λ r rest fuel enough e.
          one_value x count (count + suc (length xs)) xs v out.0 r (d.bits ++ rest) fuel
            (omega arith) room enough
            (t.gives r (d.bits ++ rest) (e ∙ append_assoc t.bits d.bits rest))
            (λ r' f p u. rw total at (d.gives r' rest f p u));
    }

abbrev opened : List ℕ → BitReader
opened bytes = record { cursor = bytes; current_byte = 0; bits_in_byte_left = 0 }

new_decoder-finish :
    (e : Encoder)
    → e.count < 2 ^ 32
    → new_decoder (finish e) ≡ ok (decoding fresh_window (opened (flush e.writer)) e.count 0)
unfolding new_decoder finish
new_decoder-finish e h =
    let long : ltb (length (write_le 4 e.count ++ flush e.writer)) 4 ≡ false =
      ground
        (arith, length-append (write_le 4 e.count) (flush e.writer), length-write_le 4 e.count) in
    rw (long, read_le-write_le 4 e.count (flush e.writer) (omega arith)) refl

-- The decoder that opens on the encoded values.
pub record Opens (xs bytes : List ℕ) : Type 0 where
  pub decoder : Decoder
  pub is_new : new_decoder bytes ≡ ok decoder
  pub total : decoder.total_count ≡ length xs
  pub decoded : (fuel : ℕ) → length xs < fuel → decode_values fuel decoder ≡ some xs

finish-Opens :
    (xs : List ℕ) (w : BitWriter) (e : Encoder)
    → written w ≡ []
    → length xs < 2 ^ 32
    → Decodes 0 xs fresh_window w e
    → Opens xs (finish e)
finish-Opens xs w e start room d =
    let whole : unread (opened (flush e.writer)) ≡ d.bits ++ zeros ((8 - e.writer.bits_count) % 8) =
      flush-written e.writer d.writer ∙ rw (d.appended, start) refl in
    record {
      decoder = decoding fresh_window (opened (flush e.writer)) e.count 0;
      is_new = new_decoder-finish e (rw d.counted (omega arith));
      total = d.counted ∙ omega arith;
      decoded = λ fuel enough. rw d.counted (
          d.gives (opened (flush e.writer)) (zeros ((8 - e.writer.bits_count) % 8)) fuel enough
            whole);
    }

pub encode_all-Opens :
    (xs : List ℕ)
    → All IsU64 xs
    → length xs < 2 ^ 32
    → Opens xs (finish (encode_all xs new_encoder))
encode_all-Opens xs small room =
    finish-Opens xs new_encoder.writer (encode_all xs new_encoder) refl room (
      encode_all-Decodes xs 0 fresh_window new_encoder.writer small (omega arith) fresh-IsWindow
        (record { few = omega arith; only = omega arith }))

-- Encoding up to 2 ^ 32 - 1 words of 64 bits and decoding the bytes, for more rounds than there are
-- words, gives the words back.
pub decompress-encode_all :
    (xs : List ℕ) (fuel : ℕ)
    → All IsU64 xs
    → length xs < 2 ^ 32
    → length xs < fuel
    → decompress_values fuel (finish (encode_all xs new_encoder)) ≡ ok (some xs)
unfolding decompress_values
decompress-encode_all xs fuel small room enough =
    let o = encode_all-Opens xs small room in rw (o.is_new, o.decoded fuel enough) refl
