-- ===== src/Codec/Chimp128/XorPayload.antt =====
-- A xor that `encode_xor_payload` writes is the one that `decode_xor_payload` reads.
use orthos_i_dart_tpx.Base.{
  ℕ, ◌*◌, ◌%◌, ◌^◌, ◌<◌, ◌≡◌, ◌∙◌, refl, arith, sym, ◌==◌, ◌&&◌, not, Bool-cases, inl, inr, List,
  ◌++◌, append_assoc,
}
use orthos_i_dart_tpx.Codec.Chimp128.{
  Window, BitWriter, write_bits, Payload, payload_of, encode_xor_payload,
}
use orthos_i_dart_tpx.Codec.Chimp128.Decoder.{BitReader, read_bits, decode_xor_payload}
use orthos_i_dart_tpx.Codec.Chimp128.Stream.{
  msb_bits, written, IsWriter, write_bits-written, unread, read_bits-unread,
}
use orthos_i_dart_tpx.Codec.Chimp128.Zeros.{IsPayload, payload_of-IsPayload}
use native.Mathlib.Nat.{mod-eq_of_lt}

-- A reading step that gave a value, a window and a rest of the stream.
abbrev pub Gives : ℕ → Window → List ℕ → ℕ × Window × BitReader → Type 0
Gives x v rest t = (t.0 ≡ x) × (t.1 ≡ v) × (unread t.2 ≡ rest)

-- The writer `w'` has appended bits to `w` from which `get` gives a value and a window.
pub record Trip (x : ℕ) (v' : Window) (w w' : BitWriter) (get : BitReader → ℕ × Window × BitReader)
    : Type 0 where
  pub bits : List ℕ
  pub writer : IsWriter w'
  pub appended : written w' ≡ written w ++ bits
  pub gives : (r : BitReader) (rest : List ℕ) → unread r ≡ bits ++ rest → Gives x v' rest (get r)

shift_up : (x m t : ℕ) → t < 64 → x < 2 ^ 64 → m * 2 ^ t ≡ x → m * 2 ^ (t % 64) % 2 ^ 64 ≡ x
shift_up x m t h small e = rw (mod-eq_of_lt h, e) (mod-eq_of_lt small)

-- The bits of a payload whose bounds are written.
abbrev new_bits : Payload → List ℕ
new_bits p =
    ((msb_bits 1 1 ++ msb_bits p.leading 6) ++ msb_bits p.trailing 6) ++ msb_bits p.value p.bits

abbrev new_window : Payload → Window → Window
new_window p v = record v { prev_leading_zeros = p.leading; prev_trailing_zeros = p.trailing }

new_decoded :
    (xor : ℕ) (p : Payload) (v : Window) (r : BitReader) (rest : List ℕ)
    → xor < 2 ^ 64
    → IsPayload xor p
    → unread r ≡ new_bits p ++ rest
    → Gives xor (new_window p v) rest (decode_xor_payload (v, r))
unfolding decode_xor_payload
new_decoded xor p v r rest small ok e =
    let (e1, u1) =
      read_bits-unread 1 1 r
        (msb_bits p.leading 6 ++ (msb_bits p.trailing 6 ++ (msb_bits p.value p.bits ++ rest)))
        (omega arith) (omega arith) (e ∙ rw (append_assoc, append_assoc, append_assoc) refl) in
    let (e2, u2) =
      read_bits-unread 6 p.leading (read_bits 1 r).1
        (msb_bits p.trailing 6 ++ (msb_bits p.value p.bits ++ rest)) (omega arith) ok.leading-lt
        u1 in
    let (e3, u3) =
      read_bits-unread 6 p.trailing (read_bits 6 (read_bits 1 r).1).1
        (msb_bits p.value p.bits ++ rest) (omega arith) ok.trailing-lt u2 in
    let (e4, u4) =
      read_bits-unread p.bits p.value (read_bits 6 (read_bits 6 (read_bits 1 r).1).1).1 rest
        ok.width-le ok.fits u3 in
    rw (e1, e2, e3, sym ok.width, e4)
      (shift_up xor p.value p.trailing ok.trailing-lt small ok.shifted, refl, u4)

-- Those of a payload within the bounds of the one before.
abbrev old_bits : Payload → List ℕ
old_bits p = msb_bits 0 1 ++ msb_bits p.value p.bits

old_decoded :
    (xor : ℕ) (p : Payload) (v : Window) (r : BitReader) (rest : List ℕ)
    → xor < 2 ^ 64
    → IsPayload xor p
    → p.leading ≡ v.prev_leading_zeros
    → p.trailing ≡ v.prev_trailing_zeros
    → unread r ≡ old_bits p ++ rest
    → Gives xor v rest (decode_xor_payload (v, r))
unfolding decode_xor_payload
old_decoded xor p v r rest small ok l t e =
    let (e1, u1) =
      read_bits-unread 1 0 r (msb_bits p.value p.bits ++ rest) (omega arith) (omega arith)
        (e ∙ append_assoc (msb_bits 0 1) (msb_bits p.value p.bits) rest) in
    let (e4, u4) = read_bits-unread p.bits p.value (read_bits 1 r).1 rest ok.width-le ok.fits u1 in
    rw (e1, sym l, sym t, sym ok.width, e4)
      (shift_up xor p.value p.trailing ok.trailing-lt small ok.shifted, refl, u4)

pub written_twice :
    (a n b m : ℕ) (w : BitWriter)
    → IsWriter w
    → IsWriter (write_bits b m (write_bits a n w))
      × (written (write_bits b m (write_bits a n w)) ≡ written w ++ (msb_bits a n ++ msb_bits b m))
written_twice a n b m w h =
    let (h1, e1) = write_bits-written a n w h in
    let (h2, e2) = write_bits-written b m (write_bits a n w) h1 in
    (h2, e2 ∙ rw (e1, append_assoc) refl)

new-Trip :
    (xor : ℕ) (p : Payload) (v : Window) (w : BitWriter)
    → xor < 2 ^ 64
    → IsPayload xor p
    → IsWriter w
    → Trip xor
        (new_window p v)
        w
        (write_bits p.value p.bits
          (write_bits p.trailing 6 (write_bits p.leading 6 (write_bits 1 1 w))))
        (λ r. decode_xor_payload (v, r))
new-Trip xor p v w small ok h =
    let (h2, e2) = written_twice 1 1 p.leading 6 w h in
    let (h4, e4) =
      written_twice p.trailing 6 p.value p.bits (write_bits p.leading 6 (write_bits 1 1 w)) h2 in
    record {
      bits = new_bits p;
      writer = h4;
      appended = e4 ∙ rw (e2, append_assoc, append_assoc, append_assoc) refl;
      gives = λ r rest. new_decoded xor p v r rest small ok;
    }

old-Trip :
    (xor : ℕ) (p : Payload) (v : Window) (w : BitWriter)
    → xor < 2 ^ 64
    → IsPayload xor p
    → IsWriter w
    → p.leading ≡ v.prev_leading_zeros
    → p.trailing ≡ v.prev_trailing_zeros
    → Trip xor v w (write_bits p.value p.bits (write_bits 0 1 w)) (λ r. decode_xor_payload (v, r))
old-Trip xor p v w small ok h l t =
    let (h2, e2) = written_twice 0 1 p.value p.bits w h in
    record {
      bits = old_bits p;
      writer = h2;
      appended = e2;
      gives = λ r rest. old_decoded xor p v r rest small ok l t;
    }

-- One payload, whichever way it is written.
pub xor_payload-Trip :
    (xor : ℕ) (v : Window) (w : BitWriter)
    → xor < 2 ^ 64
    → IsWriter w
    → Trip xor
        (encode_xor_payload xor (v, w)).0
        w
        (encode_xor_payload xor (v, w)).1
        (λ r. decode_xor_payload (v, r))
unfolding encode_xor_payload
xor_payload-Trip xor v w small h =
    let p = payload_of xor in
    let ok = payload_of-IsPayload xor small in
    elim (Bool-cases (
      not (v.prev_leading_zeros == 255)
      && (p.leading == v.prev_leading_zeros && p.trailing == v.prev_trailing_zeros))) [
        | inl same ↦ rw same (old-Trip xor p v w small ok h (ground arith) (ground arith))
        | inr other ↦ rw other (new-Trip xor p v w small ok h)
      ]
