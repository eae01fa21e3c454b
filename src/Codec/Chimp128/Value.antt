-- ===== src/Codec/Chimp128/Value.antt =====
-- A value that `encode_next` writes is the one that `decode_next` reads, in the same window.
use orthos_i_dart_tpx.Base.{
  ℕ, zero, suc, ◌+◌, ◌%◌, ◌^◌, ◌<◌, ◌≡◌, ◌∙◌, refl, arith, ap, sym, ◌==◌, if◌then◌else◌, Bool-cases,
  inl, inr, List, [], ◌∷◌, ◌++◌, length, append_assoc, true, false, Option, none, some, get_or, set,
  length-set, Bool, ltb, bit_xor, length-append,
}
use orthos_i_dart_tpx.Base.Bits.{bit_xor_cancel, bit_xor-lt, bit_xor_eq_zero}
use orthos_i_dart_tpx.Codec.Chimp128.{
  Window, BitWriter, write_bits, leading_zeros, search_history, encode_xor, encode_xor_payload,
  encode_next, remember,
}
use orthos_i_dart_tpx.Codec.Chimp128.Decoder.{read_bits, decode_next}
use orthos_i_dart_tpx.Codec.Chimp128.Stream.{
  msb_bits, IsWriter, write_bits-written, read_bits-unread,
}
use orthos_i_dart_tpx.Codec.Chimp128.XorPayload.{Trip, written_twice, xor_payload-Trip}
use mathlib.Core.Path.{subst}
use native.Mathlib.Nat.{mod-eq_of_lt}

-- The entry that the search has found is a xor with a value of the history.
abbrev Found : ℕ → List ℕ → ℕ × Option ℕ → Type 0
Found val full (b, none) = Unit
Found val full (b, some j) = (j < length full) × (b ≡ bit_xor val (get_or full j 0))

get_or-middle : (pre : List ℕ) (h : ℕ) (hs : List ℕ) → get_or (pre ++ (h ∷ hs)) (length pre) 0 ≡ h
get_or-middle [] h hs = ground arith
get_or-middle (p ∷ pre) h hs = ground (arith, get_or-middle pre h hs)

better-Found :
    (val : ℕ) (full pre : List ℕ) (h : ℕ) (hs : List ℕ) (better : Bool) (best : ℕ) (idx : Option ℕ)
    → pre ++ (h ∷ hs) ≡ full
    → Found val full (best, idx)
    → Found val full
        (if better then bit_xor val h else best, if better then some (length pre) else idx)
better-Found val full pre h hs true best idx e f = (
  rw (sym e, length-append) (omega arith),
  ap (bit_xor val) (sym (get_or-middle pre h hs) ∙ ap (λ (t : List ℕ). get_or t (length pre) 0) e),
)
better-Found val full pre h hs false best idx e f = f

search-Found :
    (val : ℕ) (full hs pre : List ℕ) (i best : ℕ) (idx : Option ℕ)
    → pre ++ hs ≡ full
    → length pre ≡ i
    → Found val full (best, idx)
    → Found val full (search_history val hs i best idx)
unfolding search_history
search-Found val full [] pre i best idx e n f = f
search-Found val full (h ∷ hs) pre i best idx e n f =
    let better = ltb (leading_zeros best) (leading_zeros (bit_xor val h)) in
    search-Found val full hs (pre ++ (h ∷ [])) (i + 1) (if better then bit_xor val h else best)
      (if better then some i else idx) (append_assoc pre (h ∷ []) hs ∙ e)
      (length-append pre (h ∷ []) ∙ omega arith)
      (subst
        (λ (m : ℕ).
          Found val full (if better then bit_xor val h else best, if better then some m else idx))
        n (better-Found val full pre h hs better best idx e f))

pub set-small :
    (xs : List ℕ) (k i val : ℕ)
    → val < 2 ^ 64
    → ((j : ℕ) → get_or xs j 0 < 2 ^ 64)
    → get_or (set xs k val) i 0 < 2 ^ 64
set-small [] k i val h f = omega arith
set-small (x ∷ xs) zero zero val h f = h
set-small (x ∷ xs) zero (suc i) val h f = f (suc i)
set-small (x ∷ xs) (suc k) zero val h f = f 0
set-small (x ∷ xs) (suc k) (suc i) val h f = set-small xs k i val h (λ j. f (suc j))

-- The windows that values of 64 bits leave.
pub record IsWindow (v : Window) : Type 0 where
  pub places : length v.history ≡ 128
  pub small : (i : ℕ) → get_or v.history i 0 < 2 ^ 64
  pub previous : v.prev_val < 2 ^ 64

pub remember-IsWindow :
    (val : ℕ) (v : Window) → val < 2 ^ 64 → IsWindow v → IsWindow (remember val v)
unfolding remember
remember-IsWindow val v h ok = record {
  places = length-set v.history (v.history_idx % 128) val ∙ ok.places;
  small = λ i. set-small v.history (v.history_idx % 128) i val h ok.small;
  previous = h;
}

repeat-Trip :
    (val : ℕ) (v : Window) (w : BitWriter)
    → bit_xor val v.prev_val ≡ 0
    → IsWriter w
    → Trip val (remember val v) w (write_bits 0 2 w) (λ r. decode_next (v, r))
unfolding decode_next
repeat-Trip val v w same h =
    let (h1, e1) = write_bits-written 0 2 w h in
    let eq = bit_xor_eq_zero val v.prev_val same in
    record {
      bits = msb_bits 0 2;
      writer = h1;
      appended = e1;
      gives = λ r rest e.
          let (b1, u1) =
            read_bits-unread 1 0 r (msb_bits 0 1 ++ rest) (omega arith) (omega arith) e in
          let (b2, u2) =
            read_bits-unread 1 0 (read_bits 1 r).1 rest (omega arith) (omega arith) u1 in
          rw (b1, b2, sym eq) (refl, refl, u2);
    }

direct-Trip :
    (val : ℕ) (v : Window) (w : BitWriter)
    → val < 2 ^ 64
    → IsWindow v
    → IsWriter w
    → Trip val
        (remember val (encode_xor_payload (bit_xor val v.prev_val) (v, write_bits 1 1 w)).0)
        w
        (encode_xor_payload (bit_xor val v.prev_val) (v, write_bits 1 1 w)).1
        (λ r. decode_next (v, r))
unfolding decode_next
direct-Trip val v w small ok h =
    let (h1, e1) = write_bits-written 1 1 w h in
    let t =
      xor_payload-Trip (bit_xor val v.prev_val) v (write_bits 1 1 w)
        (bit_xor-lt 64 val v.prev_val small ok.previous) h1 in
    record {
      bits = msb_bits 1 1 ++ t.bits;
      writer = t.writer;
      appended = t.appended ∙ rw (e1, append_assoc) refl;
      gives = λ r rest e.
          let (b1, u1) = read_bits-unread 1 1 r (t.bits ++ rest) (omega arith) (omega arith) e in
          let (x, k, u) = t.gives (read_bits 1 r).1 rest u1 in
          rw (b1, x, k, bit_xor_cancel val v.prev_val) (refl, refl, u);
    }

history-Trip :
    (val j : ℕ) (v : Window) (w : BitWriter)
    → val < 2 ^ 64
    → IsWindow v
    → IsWriter w
    → j < 128
    → Trip val
        (remember val
          (encode_xor_payload
            (bit_xor val (get_or v.history j 0))
            (v, write_bits j 7 (write_bits 1 2 w))).0)
        w
        (encode_xor_payload
          (bit_xor val (get_or v.history j 0))
          (v, write_bits j 7 (write_bits 1 2 w))).1
        (λ r. decode_next (v, r))
unfolding decode_next
history-Trip val j v w small ok h inside =
    let (h1, e1) = written_twice 1 2 j 7 w h in
    let t =
      xor_payload-Trip (bit_xor val (get_or v.history j 0)) v (write_bits j 7 (write_bits 1 2 w))
        (bit_xor-lt 64 val (get_or v.history j 0) small (ok.small j)) h1 in
    record {
      bits = (msb_bits 1 2 ++ msb_bits j 7) ++ t.bits;
      writer = t.writer;
      appended = t.appended ∙ rw (e1, append_assoc) refl;
      gives = λ r rest e.
          let (b1, u1) =
            read_bits-unread 1 0 r (msb_bits 1 1 ++ (msb_bits j 7 ++ (t.bits ++ rest)))
              (omega arith) (omega arith) (e ∙ rw (append_assoc, append_assoc) refl) in
          let (b2, u2) =
            read_bits-unread 1 1 (read_bits 1 r).1 (msb_bits j 7 ++ (t.bits ++ rest)) (omega arith)
              (omega arith) u1 in
          let (b3, u3) =
            read_bits-unread 7 j (read_bits 1 (read_bits 1 r).1).1 (t.bits ++ rest) (omega arith)
              (omega arith) u2 in
          let (x, k, u) = t.gives (read_bits 7 (read_bits 1 (read_bits 1 r).1).1).1 rest u3 in
          rw (b1, b2, b3, mod-eq_of_lt inside, x, k, bit_xor_cancel val (get_or v.history j 0))
            (refl, refl, u);
    }

xor_payload-IsWindow :
    (xor : ℕ) (v : Window) (w : BitWriter) → IsWindow v → IsWindow (encode_xor_payload xor (v, w)).0
unfolding encode_xor_payload
xor_payload-IsWindow xor v w ok = ground (arith, ok)

-- A value was written and the windows stay good.
abbrev pub Written : ℕ → Window → BitWriter → Window × BitWriter → Type 0
Written val v w t = IsWindow t.0 × Trip val t.0 w t.1 (λ r. decode_next (v, r))

searched :
    (val : ℕ) (v : Window) (w : BitWriter) (s : ℕ × Option ℕ)
    → val < 2 ^ 64
    → IsWindow v
    → IsWriter w
    → Found val v.history s
    → Written val v w (
      remember val (encode_xor (bit_xor val v.prev_val) s (v, w)).0,
      (encode_xor (bit_xor val v.prev_val) s (v, w)).1,
    )
unfolding encode_xor
searched val v w (b, none) small ok h f = (
  remember-IsWindow val (encode_xor_payload (bit_xor val v.prev_val) (v, write_bits 1 1 w)).0 small
      (xor_payload-IsWindow (bit_xor val v.prev_val) v (write_bits 1 1 w) ok),
  direct-Trip val v w small ok h,
)
searched val v w (b, some j) small ok h (inside, e) = rw e (
  remember-IsWindow val
      (encode_xor_payload (bit_xor val (get_or v.history j 0))
        (v, write_bits j 7 (write_bits 1 2 w))).0
      small
      (xor_payload-IsWindow (bit_xor val (get_or v.history j 0)) v
        (write_bits j 7 (write_bits 1 2 w)) ok),
  history-Trip val j v w small ok h (omega (arith, ok.places)),
)

-- One value after the first, on each of the three ways to write it.
pub encode_next-Written :
    (val : ℕ) (v : Window) (w : BitWriter)
    → val < 2 ^ 64
    → IsWindow v
    → IsWriter w
    → Written val v w (encode_next val (v, w))
unfolding encode_next
encode_next-Written val v w small ok h = elim (Bool-cases (bit_xor val v.prev_val == 0)) [
  | inl same ↦ rw same (remember-IsWindow val v small ok, repeat-Trip val v w (ground arith) h)
  | inr other ↦ rw other (
      searched val v w (search_history val v.history 0 (bit_xor val v.prev_val) none) small ok h
        (search-Found val v.history v.history [] 0 (bit_xor val v.prev_val) none refl refl tt))
]
