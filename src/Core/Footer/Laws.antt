-- ===== src/Core/Footer/Laws.antt =====
-- The footer's round trip, and what `Footer::deserialize` accepts.
use orthos_i_dart_tpx.Base.{
  ℕ, ◌-◌, ◌≤◌, ◌≡◌, ◌↔◌, ◌⊎◌, ◌++◌, ◌∙◌, List, length, refl, arith, take, drop, length-append,
  length-drop, bytes_eq→eq, bytes_eq_refl, Bool-cases, inl, inr, append-nil, ltb, append_assoc, All,
  IsByte, IsU32, IsU64, All-drop, bytes_eq, drop-append_len, take-append-drop, [], ap, sym,
  length-eq-zero,
}
use orthos_i_dart_tpx.Core.Error.{ok_pair, ok_inj, not_ok, >>=-eq-ok, ok}
use orthos_i_dart_tpx.Core.Cursor.{
  length-write_le, read_le_then, read_exact_then, read_le_split, read_exact_split,
}
use orthos_i_dart_tpx.Core.Types.{magic_end_final, magic_end_checkpoint}
use orthos_i_dart_tpx.Core.Footer.{Footer, serialize, read_fields, deserialize, IsFooter, check_end}

pub length-magic_end : (f : Footer) → IsFooter f → length f.magic_end ≡ 4
length-magic_end f v = elim (v.magic_known) [ inl e ↦ rw e | inr e ↦ rw e ]

pub length-serialize : (f : Footer) → IsFooter f → length (serialize f) ≡ 24
unfolding serialize
length-serialize f v = simp (length-append, length-write_le) (omega (arith, length-magic_end f v))

read_fields-serialize :
    (f : Footer) (rest : List ℕ) → IsFooter f → read_fields (serialize f ++ rest) ≡ ok (f, rest)
unfolding read_fields serialize
read_fields-serialize f rest v = simp append_assoc (
    read_le_then _ 8 f.toc_offset _ v.offset_fits
    ∙ read_le_then _ 4 f.total_chunks _ v.chunks_fit
    ∙ read_le_then _ 8 f.checksum _ v.checksum_fits
    ∙ read_exact_then _ 4 f.magic_end rest (length-magic_end f v))

check_end-eq-ok :
    (f : Footer)
    → (f.magic_end ≡ magic_end_final) ⊎ (f.magic_end ≡ magic_end_checkpoint)
    → check_end f ≡ ok f
unfolding check_end
check_end-eq-ok f (inl e) = rw e (rw bytes_eq_refl refl)
check_end-eq-ok f (inr e) = ground (arith, bytes_eq_refl magic_end_checkpoint)

read_tail :
    (front : List ℕ) (f : Footer)
    → IsFooter f
    → read_fields (drop (length (front ++ serialize f) - 24) (front ++ serialize f)) ≡ ok (f, [])
read_tail front f v =
    let e : length (front ++ serialize f) - 24 ≡ length front =
      omega (arith, length-append front (serialize f), length-serialize f v) in
    rw (e, drop-append_len (length front) front (serialize f) refl)
      (rw append-nil at (read_fields-serialize f [] v))

check_end_inv :
    (g f : Footer)
    → check_end g ≡ ok f
    → (g ≡ f) × ((f.magic_end ≡ magic_end_final) ⊎ (f.magic_end ≡ magic_end_checkpoint))
unfolding check_end
check_end_inv g f e = elim (Bool-cases (bytes_eq g.magic_end magic_end_final)) [
  | inl final ↦
      let eq : g ≡ f = ok_inj (rw final at e) in (eq, inl (rw (← eq) (bytes_eq→eq _ _ final)))
  | inr no_final ↦ elim (Bool-cases (bytes_eq g.magic_end magic_end_checkpoint)) [
    | inl mark ↦
        let eq : g ≡ f = ok_inj (rw (no_final, mark) at e) in
        (eq, inr (rw (← eq) (bytes_eq→eq _ _ mark)))
    | inr no_mark ↦ absurd (not_ok (rw (no_final, no_mark) at e))
  ]
]

-- `deserialize` reads the footer at the end of any buffer.
pub deserialize-append :
    (front : List ℕ) (f : Footer) → IsFooter f → deserialize (front ++ serialize f) ≡ ok f
unfolding deserialize check_end
deserialize-append front f v = ground (
  arith,
  length-append front (serialize f),
  length-serialize f v,
  read_tail front f v,
  check_end-eq-ok f v.magic_known,
)

-- The reads of a footer accept exactly what its fields write.
read_fields_inv :
    (bs : List ℕ) (f : Footer) (rest : List ℕ)
    → All IsByte bs
    → read_fields bs ≡ ok (f, rest)
    → IsU64 f.toc_offset
      × IsU32 f.total_chunks
      × IsU64 f.checksum
      × (length f.magic_end ≡ 4)
      × (bs ≡ serialize f ++ rest)
unfolding read_fields serialize
read_fields_inv bs f rest v e = read_le_split 8 _ bs v e λ n1 r1 m1 e1 v1 k1.
    read_le_split 4 _ r1 v1 k1 λ n2 r2 m2 e2 v2 k2. read_le_split 8 _ r2 v2 k2 λ n3 r3 m3 e3 v3 k3.
      read_exact_split 4 _ r3 v3 k3 λ m r4 m4 e4 b4 v4 k4.
        let (ef, er) = ok_pair k4 in
        rw (← ef, ← er) (m1, m2, m3, m4, rw (e1, e2, e3, e4) (simp append_assoc))

deserialize_parts :
    (buf : List ℕ) (f : Footer)
    → deserialize buf ≡ ok f
    → (24 ≤ length buf)
      × ((rest : List ℕ) × (read_fields (drop (length buf - 24) buf) ≡ ok (f, rest)))
      × ((f.magic_end ≡ magic_end_final) ⊎ (f.magic_end ≡ magic_end_checkpoint))
unfolding deserialize
deserialize_parts buf f e = elim (Bool-cases (ltb (length buf) 24)) [
  | inl short ↦ absurd (not_ok (rw short at e))
  | inr long ↦
      let ((g, rest), r, e') =
        >>=-eq-ok (read_fields (drop (length buf - 24) buf)) _ (rw long at e) in
      let (eq, known) = check_end_inv g f e' in
      (ground arith, (rest, r ∙ ap (λ x. ok (x, rest)) eq), known)
]

tail_of :
    (buf : List ℕ) (f : Footer) (rest : List ℕ)
    → IsFooter f
    → 24 ≤ length buf
    → drop (length buf - 24) buf ≡ serialize f ++ rest
    → buf ≡ take (length buf - 24) buf ++ serialize f
tail_of buf f rest fits len eq =
    let none_left : rest ≡ [] = length-eq-zero rest (
      omega (
        arith,
        ap length eq,
        length-drop (length buf - 24) buf,
        length-append (serialize f) rest,
        length-serialize f fits,
      )) in
    sym (take-append-drop (length buf - 24) buf)
    ∙ ap (◌++◌ (take (length buf - 24) buf)) (eq ∙ rw (none_left, append-nil))

-- For a buffer of bytes, `Footer::deserialize` returns a footer exactly if the buffer ends with
-- the 24 bytes that `serialize` writes for it, its numbers fit their types and its end magic is
-- the final or the checkpoint one.
pub footer_deserialize_iff :
    (buf : List ℕ) (f : Footer)
    → All IsByte buf
    → (deserialize buf ≡ ok f) ↔ (IsFooter f × ((front : List ℕ) × (buf ≡ front ++ serialize f)))
footer_deserialize_iff buf f v = (
  λ e.
      let (len, (rest, r), known) = deserialize_parts buf f e in
      let (n1, n2, n3, n4, eq) = read_fields_inv _ f rest (All-drop IsByte _ buf v) r in
      let fits : IsFooter f = record {
        offset_fits = n1;
        chunks_fit = n2;
        checksum_fits = n3;
        magic_known = known;
      } in
      (fits, (take (length buf - 24) buf, tail_of buf f rest fits len eq)),
  λ (fits, (front, eq)). rw eq (deserialize-append front f fits),
)
