-- ===== src/Core/Header/Laws.antt =====
-- The header's round trip, and which buffers `deserialize` accepts.
use orthos_i_dart_tpx.Base.{
  ℕ, ◌/◌, ◌%◌, ◌^◌, ◌≤◌, ◌<◌, ◌≡◌, ◌≢◌, ◌↔◌, ◌++◌, ◌∙◌, List, length, refl, arith, length-append,
  bytes_eq→eq, bytes_eq_refl, Bool-cases, inl, inr, ltb, append_assoc, All, IsByte,
}
use orthos_i_dart_tpx.Core.Error as Error
use orthos_i_dart_tpx.Core.Error.{
  ok_pair, not_ok, >>=-eq-ok, Result, ok, err, invalid_magic, unsupported_version, buffer_too_small,
}
use orthos_i_dart_tpx.Core.Cursor.{
  length-write_le, read_le_then, read_exact_then, read_le_split, read_exact_split,
}
use orthos_i_dart_tpx.Core.Types.{magic_bytes}
use orthos_i_dart_tpx.Core.Header.{
  FileHeader, serialize, read_fields, validate, deserialize, IsHeader,
}

pub length-serialize : (h : FileHeader) → length h.magic ≡ 4 → length (serialize h) ≡ 48
unfolding serialize
length-serialize h e = simp (length-append, length-write_le) (omega arith)

pub read_fields-serialize :
    (h : FileHeader) (rest : List ℕ) → IsHeader h → read_fields (serialize h ++ rest) ≡ ok (h, rest)
unfolding read_fields serialize
read_fields-serialize h rest v = simp append_assoc (
    read_exact_then _ 4 h.magic _ v.magic_len
    ∙ read_le_then _ 2 h.format_version _ v.version_fits
    ∙ read_le_then _ 2 h.flags _ v.flags_fit
    ∙ read_le_then _ 4 h.chunk_align _ v.align_fits
    ∙ read_le_then _ 4 h.default_block_size _ v.block_fits
    ∙ read_le_then _ 2 h.shard_count _ v.count_fits
    ∙ read_le_then _ 2 h.reserved _ v.reserved_fits
    ∙ read_le_then _ 8 h.global_attrs_offset _ v.offset_fits
    ∙ read_le_then _ 8 h.global_attrs_len _ v.len_fits
    ∙ read_le_then _ 8 h.shard_table_offset _ v.table_fits
    ∙ read_le_then _ 4 h.reserved2 rest v.reserved2_fits)

-- The reads of a header accept exactly what a header's fields write.
pub read_fields_inv :
    (bs : List ℕ) (h : FileHeader) (rest : List ℕ)
    → All IsByte bs
    → read_fields bs ≡ ok (h, rest)
    → IsHeader h × (bs ≡ serialize h ++ rest)
unfolding read_fields serialize
read_fields_inv bs h rest v e = read_exact_split 4 _ bs v e λ magic r0 m0 e0 mb v0 k0.
    read_le_split 2 _ r0 v0 k0 λ n1 r1 m1 e1 v1 k1. read_le_split 2 _ r1 v1 k1 λ n2 r2 m2 e2 v2 k2.
      read_le_split 4 _ r2 v2 k2 λ n3 r3 m3 e3 v3 k3.
        read_le_split 4 _ r3 v3 k3 λ n4 r4 m4 e4 v4 k4.
          read_le_split 2 _ r4 v4 k4 λ n5 r5 m5 e5 v5 k5.
            read_le_split 2 _ r5 v5 k5 λ n6 r6 m6 e6 v6 k6.
              read_le_split 8 _ r6 v6 k6 λ n7 r7 m7 e7 v7 k7.
                read_le_split 8 _ r7 v7 k7 λ n8 r8 m8 e8 v8 k8.
                  read_le_split 8 _ r8 v8 k8 λ n9 r9 m9 e9 v9 k9.
                    read_le_split 4 _ r9 v9 k9 λ n10 r10 m10 e10 v10 k10.
                      let (eh, er) = ok_pair k10 in
                      rw (← eh, ← er)
                        (
                          record {
                            magic_len = m0;
                            magic_bytes = mb;
                            version_fits = m1;
                            flags_fit = m2;
                            align_fits = m3;
                            block_fits = m4;
                            count_fits = m5;
                            reserved_fits = m6;
                            offset_fits = m7;
                            len_fits = m8;
                            table_fits = m9;
                            reserved2_fits = m10;
                          },
                          rw (e0, e1, e2, e3, e4, e5, e6, e7, e8, e9, e10) (simp append_assoc),
                        )

-- What the checks of `validate` stand for.
pub record IsSupported (h : FileHeader) : Type 0 where
  pub tpx_magic : h.magic ≡ magic_bytes
  pub major_le_one : h.format_version / 2 ^ 8 % 256 ≤ 1

validate_iff : (h : FileHeader) → (validate h ≡ ok tt) ↔ IsSupported h
unfolding validate
validate_iff h = (
  λ e. record {
    tpx_magic = ground (arith, bytes_eq→eq h.magic magic_bytes);
    major_le_one = ground arith;
  },
  λ s. rw (s.tpx_magic, bytes_eq_refl) (ground (arith, s.major_le_one)),
)

deserialize-append :
    (h : FileHeader) (rest : List ℕ)
    → IsHeader h
    → deserialize (serialize h ++ rest) ≡ Error.◌>>=◌ (validate h) (λ _. ok h)
unfolding deserialize
deserialize-append h rest v = ground (
  arith,
  length-append (serialize h) rest,
  length-serialize h v.magic_len,
  read_fields-serialize h rest v,
)

deserialize_parts :
    (buf : List ℕ) (h : FileHeader)
    → deserialize buf ≡ ok h
    → (rest : List ℕ) × (read_fields buf ≡ ok (h, rest)) × (validate h ≡ ok tt)
unfolding deserialize
deserialize_parts buf h e = elim (Bool-cases (ltb (length buf) 48)) [
  | inl short ↦ absurd (not_ok (rw short at e))
  | inr long ↦
      let ((g, rest), r, e') = >>=-eq-ok (read_fields buf) _ (rw long at e) in
      let (u, val, eq) = >>=-eq-ok (validate g) _ e' in (rest, cc, cc)
]

-- For a buffer of bytes, `FileHeader::deserialize` returns a header exactly if the buffer begins
-- with the 48 bytes that `serialize` writes for it, its fields fit their types, its magic is
-- "TPX\x01" and its major version is at most 1.
pub deserialize-IsHeader :
    (buf : List ℕ) (h : FileHeader)
    → All IsByte buf
    → (deserialize buf ≡ ok h)
      ↔ (IsHeader h × IsSupported h × ((rest : List ℕ) × (buf ≡ serialize h ++ rest)))
deserialize-IsHeader buf h v = (
  λ e.
      let (rest, r, val) = deserialize_parts buf h e in
      let (fits, eq) = read_fields_inv buf h rest v r in (fits, (validate_iff h).0 val, (rest, eq)),
  λ (fits, ok_header, (rest, eq)).
      rw (eq, deserialize-append h rest fits, (validate_iff h).1 ok_header) refl,
)

pub deserialize-serialize_header :
    (h : FileHeader) (rest : List ℕ)
    → IsHeader h
    → IsSupported h
    → deserialize (serialize h ++ rest) ≡ ok h
deserialize-serialize_header h rest fits ok_header =
    rw (deserialize-append h rest fits, (validate_iff h).1 ok_header) refl

-- On the bytes of any header, supported or not, the other outcomes of `deserialize` are: a magic
-- that differs is reported with both magics; with the right magic a major version above 1 is
-- reported with the whole version; and every buffer below 48 bytes is too small.
pub header_deserialize_errors :
    (h : FileHeader) (rest short : List ℕ)
    → IsHeader h
    → length short < 48
    → (h.magic ≢ magic_bytes
        → deserialize (serialize h ++ rest) ≡ err (invalid_magic magic_bytes h.magic))
      × (h.magic ≡ magic_bytes
          → 1 < h.format_version / 2 ^ 8 % 256
          → deserialize (serialize h ++ rest) ≡ err (unsupported_version h.format_version))
      × (deserialize short ≡ err (buffer_too_small "FileHeader" 48 (length short)))
header_deserialize_errors h rest short v l = (
  λ ne.
      rw (deserialize-append h rest v)
        (unfold validate in ground (arith, bytes_eq→eq h.magic magic_bytes)),
  λ eq gt.
      rw (deserialize-append h rest v) (unfold validate in rw (eq, bytes_eq_refl) (ground arith)),
  unfold deserialize in ground arith,
)
