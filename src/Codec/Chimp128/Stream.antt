-- ===== src/Codec/Chimp128/Stream.antt =====
-- Writer and reader as a stream of bits: what is written comes out again, in order.
use orthos_i_dart_tpx.Base.{
  ℕ, zero, suc, ◌+◌, ◌-◌, ◌*◌, ◌/◌, ◌%◌, ◌^◌, ◌≤◌, ◌<◌, ◌≡◌, ◌∙◌, refl, arith, ap, ap₂, sym, List,
  [], ◌∷◌, ◌++◌, append-nil, append_assoc, ◌==◌, bit_or, Bool-cases, inl, inr, ltb, true,
}
use orthos_i_dart_tpx.Base.Bits.{two_pow_add, bit_or_push, div_pow-suc, mod_pow-suc}
use orthos_i_dart_tpx.Codec.Chimp128.{BitWriter, push_bit, write_bits, flush}
use orthos_i_dart_tpx.Codec.Chimp128.Decoder.{BitReader, read_bit, read_loop, read_bits, refill}
use mathlib.Core.Path.{subst}
use native.Mathlib.Decide.{dec_lt}
use native.Mathlib.Nat.{
  pow-suc, one-le-pow, mul-le-mul_left, mul-le-mul_right, mod-eq_of_lt, pow-le-pow_right, le_trans,
}

-- The `n` low bits of a number, highest first, and the bits of bytes.
abbrev pub msb_bits : ℕ → ℕ → List ℕ
msb_bits v zero = []
msb_bits v (suc n) = v / 2 ^ n % 2 ∷ msb_bits v n

abbrev pub bytes_bits : List ℕ → List ℕ
bytes_bits [] = []
bytes_bits (b ∷ bs) = msb_bits b 8 ++ bytes_bits bs

msb_bits-push : (n b x : ℕ) → x < 2 → msb_bits (b * 2 + x) (suc n) ≡ msb_bits b n ++ (x ∷ [])
msb_bits-push zero b x h = ap (λ (t : ℕ). t ∷ []) (omega arith)
msb_bits-push (suc n) b x h =
    let e : (b * 2 + x) / 2 ^ suc n ≡ b / 2 ^ n =
      div_pow-suc (b * 2 + x) n ∙ ap (λ (t : ℕ). t / 2 ^ n) (omega arith) in
    ap₂ ◌∷◌ (ap (λ (t : ℕ). t % 2) e) (msb_bits-push n b x h)

bytes_bits-append : (xs ys : List ℕ) → bytes_bits (xs ++ ys) ≡ bytes_bits xs ++ bytes_bits ys
bytes_bits-append [] ys = refl
bytes_bits-append (x ∷ xs) ys =
    ap (◌++◌ (msb_bits x 8)) (bytes_bits-append xs ys)
    ∙ sym (append_assoc (msb_bits x 8) (bytes_bits xs) (bytes_bits ys))

abbrev pub written : BitWriter → List ℕ
written w = bytes_bits w.output ++ msb_bits w.bits_buffer w.bits_count

-- Fewer than 8 bits wait in the buffer, and it holds no others.
pub record IsWriter (w : BitWriter) : Type 0 where
  pub few : w.bits_count < 8
  pub only : w.bits_buffer < 2 ^ w.bits_count

buffer_small : (w : BitWriter) → IsWriter w → w.bits_buffer < 128
buffer_small w v = le_trans v.only (pow-le-pow_right {n = 2} (omega arith) {j = 7} (omega arith))

push_full :
    (out : List ℕ) (b count bit : ℕ)
    → b < 128
    → bit < 2
    → count ≡ 7
    → bytes_bits (out ++ ((b * 2 + bit) % 256 ∷ [])) ++ []
      ≡ (bytes_bits out ++ msb_bits b count) ++ (bit ∷ [])
push_full out b count bit small h e =
    let byte : (b * 2 + bit) % 256 ≡ b * 2 + bit = omega arith in
    rw (e, byte, append-nil, bytes_bits-append, append-nil, append_assoc)
      (ap (◌++◌ (bytes_bits out)) (msb_bits-push 7 b bit h))

push_bit-written :
    (bit : ℕ) (w : BitWriter)
    → bit < 2
    → IsWriter w
    → IsWriter (push_bit bit w) × (written (push_bit bit w) ≡ written w ++ (bit ∷ []))
unfolding push_bit
push_bit-written bit w h v =
    let small = buffer_small w v in
    let room : w.bits_buffer * 2 % 2 ^ 64 ≡ w.bits_buffer * 2 = omega arith in
    let e : bit_or (w.bits_buffer * 2 % 2 ^ 64) bit ≡ w.bits_buffer * 2 + bit =
      rw room (bit_or_push w.bits_buffer bit h) in
    let up : w.bits_count + 1 ≡ suc w.bits_count = omega arith in
    elim (Bool-cases (w.bits_count + 1 == 8)) [
      | inl full ↦
          rw (full, e)
            (
              record { few = omega arith; only = omega arith },
              push_full w.output w.bits_buffer w.bits_count bit small h (ground arith),
            )
      | inr more ↦
          rw (more, e, up)
            (
              record { few = ground arith; only = omega (arith, v.only, pow-suc 2 w.bits_count) },
              ap (◌++◌ (bytes_bits w.output)) (msb_bits-push w.bits_count w.bits_buffer bit h)
                  ∙ sym (
                      append_assoc (bytes_bits w.output) (msb_bits w.bits_buffer w.bits_count)
                        (bit ∷ [])),
            )
    ]

-- Writing `n` bits of a number appends them to the stream.
pub write_bits-written :
    (v n : ℕ) (w : BitWriter)
    → IsWriter w
    → IsWriter (write_bits v n w) × (written (write_bits v n w) ≡ written w ++ msb_bits v n)
unfolding write_bits
write_bits-written v zero w h = (h, sym (append-nil (written w)))
write_bits-written v (suc n) w h =
    let (h1, e1) = push_bit-written (v / 2 ^ n % 2) w (omega arith) h in
    let (h2, e2) = write_bits-written v n (push_bit (v / 2 ^ n % 2) w) h1 in
    (h2, e2 ∙ rw (e1, append_assoc) refl)

-- What the reader has still to give.
abbrev pub unread : BitReader → List ℕ
unread r = msb_bits r.current_byte r.bits_in_byte_left ++ bytes_bits r.cursor

read_bit_at :
    (cursor : List ℕ) (b left x : ℕ) (rest : List ℕ)
    → msb_bits b left ++ bytes_bits cursor ≡ x ∷ rest
    → ((read_bit (record { cursor = cursor; current_byte = b; bits_in_byte_left = left })).0 ≡ x)
      × (unread
            (read_bit (record { cursor = cursor; current_byte = b; bits_in_byte_left = left })).1
          ≡ rest)
unfolding read_bit refill
read_bit_at [] b zero x rest e = ground arith
read_bit_at (c ∷ cs) b zero x rest e = ground arith
read_bit_at cursor b (suc n) x rest e = ground arith

next_bit :
    (r : BitReader) (x : ℕ) (rest : List ℕ)
    → unread r ≡ x ∷ rest
    → ((read_bit r).0 ≡ x) × (unread (read_bit r).1 ≡ rest)
next_bit r x rest e = read_bit_at r.cursor r.current_byte r.bits_in_byte_left x rest e

-- A result of as many bits as are read so far has room for the next one.
room_for_next : (n result : ℕ) → (result + 1) * 2 ^ suc n ≤ 2 ^ 64 → result * 2 + 2 ≤ 2 ^ 64
room_for_next n result h =
    let one : 1 ≤ 2 ^ n = one-le-pow n 2 (omega arith) in
    let grow : (result + 1) * 2 * 1 ≤ (result + 1) * 2 * 2 ^ n =
      mul-le-mul_left ((result + 1) * 2) one in
    omega (arith, pow-suc 2 n, ap (λ (t : ℕ). (result + 1) * t) (pow-suc 2 n))

read_loop-unread :
    (n v result : ℕ) (r : BitReader) (rest : List ℕ)
    → (result + 1) * 2 ^ n ≤ 2 ^ 64
    → unread r ≡ msb_bits v n ++ rest
    → ((read_loop n result r).0 ≡ result * 2 ^ n + v % 2 ^ n)
      × (unread (read_loop n result r).1 ≡ rest)
unfolding read_loop
read_loop-unread zero v result r rest room e = (omega arith, e)
read_loop-unread (suc n) v result r rest room e =
    let (b, e1) = next_bit r (v / 2 ^ n % 2) (msb_bits v n ++ rest) e in
    let fits = room_for_next n result room in
    let bit = v / 2 ^ n % 2 in
    let fit : result * 2 % 2 ^ 64 ≡ result * 2 = omega arith in
    let value : bit_or (result * 2 % 2 ^ 64) bit ≡ result * 2 + bit =
      rw fit (bit_or_push result bit (omega arith)) in
    let step : bit_or (result * 2 % 2 ^ 64) (read_bit r).0 ≡ result * 2 + bit =
      ap (bit_or (result * 2 % 2 ^ 64)) b ∙ value in
    let more : (result * 2 + bit + 1) * 2 ^ n ≤ (result * 2 + 2) * 2 ^ n =
      mul-le-mul_right (2 ^ n) (omega arith) in
    let (e2, e3) =
      read_loop-unread n v (result * 2 + bit) (read_bit r).1 rest
        (omega (arith, room, more, ap (λ (t : ℕ). (result + 1) * t) (pow-suc 2 n))) e1 in
    let unroll : read_loop (suc n) result r ≡ read_loop n (result * 2 + bit) (read_bit r).1 =
      ap (λ (t : ℕ). read_loop n t (read_bit r).1) step in
    (
      ap (λ (t : ℕ × BitReader). t.0) unroll
          ∙ e2
          ∙ omega (arith, mod_pow-suc v n, ap (λ (t : ℕ). result * t) (pow-suc 2 n)),
      ap (λ (t : ℕ × BitReader). unread t.1) unroll ∙ e3,
    )

-- Reading `n` bits of the stream gives the number that was written there.
pub read_bits-unread :
    (n v : ℕ) (r : BitReader) (rest : List ℕ)
    → n ≤ 64
    → v < 2 ^ n
    → unread r ≡ msb_bits v n ++ rest
    → ((read_bits n r).0 ≡ v) × (unread (read_bits n r).1 ≡ rest)
unfolding read_bits
read_bits-unread n v r rest h small e =
    let room : 2 ^ n ≤ 2 ^ 64 = pow-le-pow_right {n = 2} (omega arith) {j = 64} h in
    let (e1, e2) = read_loop-unread n v 0 r rest (omega arith) e in
    (e1 ∙ omega arith ∙ mod-eq_of_lt small, e2)

-- The zeros that fill the last byte.
abbrev pub zeros : ℕ → List ℕ
zeros zero = []
zeros (suc k) = zeros k ++ (0 ∷ [])

msb_bits-shift : (b c k : ℕ) → msb_bits (b * 2 ^ k) (k + c) ≡ msb_bits b c ++ zeros k
msb_bits-shift b c zero =
    let e : b * 2 ^ 0 ≡ b = omega arith in
    let n : 0 + c ≡ c = omega arith in rw (e, n, append-nil) refl
msb_bits-shift b c (suc k) =
    let e : b * 2 ^ suc k ≡ b * 2 ^ k * 2 + 0 =
      omega (arith, ap (λ (t : ℕ). b * t) (pow-suc 2 k)) in
    let n : suc k + c ≡ suc (k + c) = omega arith in
    rw (e, n)
      (msb_bits-push (k + c) (b * 2 ^ k) 0 (omega arith)
        ∙ rw (msb_bits-shift b c k, append_assoc) refl)

flush_none :
    (w : BitWriter)
    → w.bits_count ≡ 0
    → bytes_bits (flush w) ≡ written w ++ zeros ((8 - w.bits_count) % 8)
unfolding flush
flush_none w e = rw (e, append-nil, append-nil) refl

last_byte :
    (out : List ℕ) (b c k : ℕ)
    → b < 2 ^ c
    → k + c ≡ 8
    → bytes_bits (out ++ (b * 2 ^ k % 256 ∷ [])) ≡ (bytes_bits out ++ msb_bits b c) ++ zeros k
last_byte out b c k small e =
    let shifted : msb_bits (b * 2 ^ k) 8 ≡ msb_bits b c ++ zeros k =
      subst (λ (n : ℕ). msb_bits (b * 2 ^ k) n ≡ msb_bits b c ++ zeros k) e
        (msb_bits-shift b c k) in
    let size : c + k ≡ 8 = omega arith in
    let whole : 2 ^ c * 2 ^ k ≡ 256 = sym (two_pow_add c k) ∙ ap (λ (n : ℕ). 2 ^ n) size in
    let pos : 1 ≤ 2 ^ k = one-le-pow k 2 (omega arith) in
    let below : (b + 1) * 2 ^ k ≤ 2 ^ c * 2 ^ k = mul-le-mul_right (2 ^ k) (omega arith) in
    let byte : b * 2 ^ k % 256 ≡ b * 2 ^ k = mod-eq_of_lt (omega arith) in
    rw (byte, bytes_bits-append)
      (ap (λ (t : List ℕ). bytes_bits out ++ (t ++ [])) shifted
        ∙ rw (append-nil, append_assoc) refl)

flush_some :
    (w : BitWriter)
    → IsWriter w
    → 0 < w.bits_count
    → bytes_bits (flush w) ≡ written w ++ zeros ((8 - w.bits_count) % 8)
unfolding flush
flush_some w h pos =
    let t : ltb 0 w.bits_count ≡ true = ground arith in
    let few = h.few in
    let fill : (8 - w.bits_count) % 8 ≡ 8 - w.bits_count = omega arith in
    rw (t, fill)
      (last_byte w.output w.bits_buffer w.bits_count (8 - w.bits_count) h.only (omega arith))

-- The bytes of a finished writer hold its stream, and zeros behind it.
pub flush-written :
    (w : BitWriter)
    → IsWriter w
    → bytes_bits (flush w) ≡ written w ++ zeros ((8 - w.bits_count) % 8)
flush-written w h = elim (dec_lt 0 w.bits_count) [
  | yes p ↦ flush_some w h p
  | no n ↦ flush_none w (omega arith)
]
