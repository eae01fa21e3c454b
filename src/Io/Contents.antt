-- ===== src/Io/Contents.antt =====
-- What a reader sees: the file and the buffer behind it. Every operation is one on these bytes.
use orthos_i_dart_tpx.Base.{
  ℕ, zero, suc, ◌+◌, ◌-◌, ◌≤◌, ◌<◌, ◌≡◌, ◌⊎◌, ◌∙◌, refl, arith, ap, sym, List, [], ◌∷◌, ◌++◌,
  length, take, drop, replicate, leb, ltb, ◌==◌, max, true, false, Bool-cases, inl, inr,
  length-append, length-take, length-drop, length-replicate, append-nil, append_assoc, take_all,
  length-eq-zero,
}
use native.Mathlib.Decide.{ℕ_discrete}
use orthos_i_dart_tpx.Core.Error.{Result, ok}
use orthos_i_dart_tpx.Core.Types.{OpenMode}
use orthos_i_dart_tpx.Io.{
  Backend, opened, drained, write_buffer_limit, write_span, read_span, set_len, flush_buffer,
  can_write, write_at, read_at, append_bytes, append_direct, append_buffered, place_at, sync,
  truncate,
}

abbrev pub contents : Backend → List ℕ
contents s = s.file ++ s.write_buffer

-- The buffer starts where the file ends.
pub record IsBackend (s : Backend) : Type 0 where
  pub start : s.write_buffer_start ≡ length s.file
  pub total : s.logical_len ≡ length (contents s)

pub opened-IsBackend : (file : List ℕ) (mode : OpenMode) → IsBackend (opened file mode)
opened-IsBackend file mode = record { start = refl; total = ap length (sym (append-nil file)) }

-- Writing at the end appends.
pub write_span_end :
    (file : List ℕ) (offset : ℕ) (bytes : List ℕ)
    → offset ≡ length file
    → write_span file offset bytes ≡ file ++ bytes
unfolding write_span
write_span_end file offset [] e = sym (append-nil file)
write_span_end file offset (b ∷ bytes) e =
    let no_gap : offset - length file ≡ 0 = omega arith in
    let nothing : drop (offset + length (b ∷ bytes)) file ≡ [] =
      length-eq-zero _ (omega (arith, length-drop (offset + length (b ∷ bytes)) file)) in
    rw (no_gap, nothing, append-nil, take_all offset file (omega arith)) refl

pub length-write_span :
    (file : List ℕ) (offset : ℕ) (bytes : List ℕ)
    → (offset ≤ length file) ⊎ (0 < length bytes)
    → length (write_span file offset bytes) ≡ max (length file) (offset + length bytes)
unfolding write_span
length-write_span file offset [] (inl h) = ground arith
length-write_span file offset [] (inr h) = absurd (omega arith)
length-write_span file offset (b ∷ bytes) h = ground (
  arith,
  length-append (take offset file) (
      replicate (offset - length file) 0
      ++ ((b ∷ bytes) ++ drop (offset + length (b ∷ bytes)) file)),
  length-append (replicate {A = ℕ} (offset - length file) 0)
      ((b ∷ bytes) ++ drop (offset + length (b ∷ bytes)) file),
  length-append (b ∷ bytes) (drop (offset + length (b ∷ bytes)) file),
  length-take offset file,
  length-replicate {A = ℕ} (offset - length file) 0,
  length-drop (offset + length (b ∷ bytes)) file,
)

pub flush_buffer_lem :
    (s : Backend)
    → IsBackend s
    → ((flush_buffer s).file ≡ contents s)
      × ((flush_buffer s).write_buffer ≡ [])
      × ((flush_buffer s).mode ≡ s.mode)
      × ((flush_buffer s).logical_len ≡ s.logical_len)
      × IsBackend (flush_buffer s)
unfolding flush_buffer
flush_buffer_lem s v = elim (ℕ_discrete (length s.write_buffer) 0) [
  | yes e ↦
      let nil = length-eq-zero s.write_buffer e in
      let t : (length s.write_buffer == 0) ≡ true = ground arith in
      rw t (rw nil (sym (append-nil s.file)), nil, refl, refl, v)
  | no n ↦
      let t : (length s.write_buffer == 0) ≡ false = ground arith in
      let w = write_span_end s.file s.write_buffer_start s.write_buffer v.start in
      rw t (
        w,
        refl,
        refl,
        refl,
        record {
          start =
              ap (λ (k : ℕ). k + length s.write_buffer) v.start
              ∙ sym (length-append s.file s.write_buffer)
              ∙ ap length (sym w);
          total = v.total ∙ ap length (sym w ∙ sym (append-nil _));
        },
      )
]

-- An operation that answers `reply` and leaves the bytes `after`.
pub record Does {A : Type 0} (s : Backend) (reply : A) (after : List ℕ) (r : Backend × A)
    : Type 0 where
  pub replied : r.1 ≡ reply
  pub bytes : contents r.0 ≡ after
  pub same_mode : r.0.mode ≡ s.mode
  pub valid : IsBackend r.0

drained_lem : (s : Backend) → IsBackend s → drained s ≡ contents s
drained_lem s v = elim (ℕ_discrete (length s.write_buffer) 0) [
  | yes e ↦
      let t : (length s.write_buffer == 0) ≡ true = ground arith in
      rw t (rw (length-eq-zero s.write_buffer e) (sym (append-nil s.file)))
  | no n ↦
      let t : (length s.write_buffer == 0) ≡ false = ground arith in
      rw t (write_span_end s.file s.write_buffer_start s.write_buffer v.start)
]

append_direct_lem :
    (new : List ℕ) (s : Backend)
    → IsBackend s
    → Does s
        (Result.ok (length (contents s)))
        (contents s ++ new)
        (append_direct new s, ok s.logical_len)
unfolding append_direct
append_direct_lem new s v =
    let w : write_span (drained s) s.logical_len new ≡ contents s ++ new =
      rw (drained_lem s v) (write_span_end (contents s) s.logical_len new v.total) in
    let size : s.logical_len + length new ≡ length (contents s ++ new) =
      ap (λ (k : ℕ). k + length new) v.total ∙ sym (length-append (contents s) new) in
    record {
      replied = ap ok v.total;
      bytes = append-nil _ ∙ w;
      same_mode = refl;
      valid = record {
        start = size ∙ ap length (sym w);
        total = size ∙ ap length (sym w ∙ sym (append-nil _));
      };
    }

append_buffered_lem :
    (new : List ℕ) (s : Backend)
    → IsBackend s
    → Does s
        (Result.ok (length (contents s)))
        (contents s ++ new)
        (append_buffered new s, ok s.logical_len)
unfolding append_buffered
append_buffered_lem new s v =
    let wb = s.write_buffer ++ new in
    let whole : s.file ++ wb ≡ contents s ++ new = sym (append_assoc s.file s.write_buffer new) in
    let size : s.logical_len + length new ≡ length (contents s ++ new) =
      ap (λ (k : ℕ). k + length new) v.total ∙ sym (length-append (contents s) new) in
    let w : write_span s.file s.write_buffer_start wb ≡ s.file ++ wb =
      write_span_end s.file s.write_buffer_start wb v.start in
    elim (Bool-cases (leb write_buffer_limit (length wb))) [
      | inl out ↦ rw out record {
        replied = ap ok v.total;
        bytes = append-nil _ ∙ w ∙ whole;
        same_mode = refl;
        valid = record {
          start =
              ap (λ (k : ℕ). k + length wb) v.start
              ∙ sym (length-append s.file wb)
              ∙ ap length (sym w);
          total = size ∙ ap length (sym whole ∙ sym w ∙ sym (append-nil _));
        };
      }
      | inr more ↦ rw more record {
        replied = ap ok v.total;
        bytes = whole;
        same_mode = refl;
        valid = record { start = v.start; total = size ∙ ap length (sym whole) };
      }
    ]

-- An append answers with the offset behind the bytes so far, and puts the new ones there.
pub append_bytes_lem :
    (new : List ℕ) (s : Backend)
    → can_write s.mode ≡ true
    → IsBackend s
    → Does s (Result.ok (length (contents s))) (contents s ++ new) (append_bytes new s)
unfolding append_bytes
append_bytes_lem new s m v = elim (Bool-cases (leb write_buffer_limit (length new))) [
  | inl direct ↦ rw (m, direct) (append_direct_lem new s v)
  | inr small ↦ rw (m, small) (append_buffered_lem new s v)
]

slice_front :
    (offset len : ℕ) (xs ys : List ℕ)
    → offset + len ≤ length xs
    → take len (drop offset (xs ++ ys)) ≡ take len (drop offset xs)
slice_front zero zero xs ys h = refl
slice_front zero (suc len) [] ys h = absurd (omega arith)
slice_front zero (suc len) (x ∷ xs) ys h = ap (◌∷◌ x) (slice_front zero len xs ys (omega arith))
slice_front (suc offset) len [] ys h = absurd (omega arith)
slice_front (suc offset) len (x ∷ xs) ys h = slice_front offset len xs ys (omega arith)

pub read_span_front :
    (offset len : ℕ) (xs ys : List ℕ)
    → offset + len ≤ length xs
    → read_span xs offset len ≡ read_span (xs ++ ys) offset len
unfolding read_span
read_span_front offset len xs ys h =
    let inner : leb (offset + len) (length xs) ≡ true = ground arith in
    let outer : leb (offset + len) (length (xs ++ ys)) ≡ true =
      ground (arith, length-append xs ys) in
    rw (inner, outer) (ground (arith, slice_front offset len xs ys h))

-- A read answers with the bytes that stand there, wherever they are kept, and changes none.
pub read_at_lem :
    (offset len : ℕ) (s : Backend)
    → IsBackend s
    → Does s (read_span (contents s) offset len) (contents s) (read_at offset len s)
unfolding read_at
read_at_lem offset len s v = elim (Bool-cases (ltb s.write_buffer_start (offset + len))) [
  | inl past ↦
      let (f, nil, m, l, v') = flush_buffer_lem s v in
      rw past record {
        replied = ap (λ (t : List ℕ). read_span t offset len) f;
        bytes = rw nil (append-nil _ ∙ f);
        same_mode = m;
        valid = v';
      }
  | inr before ↦ rw before record {
    replied = read_span_front offset len s.file s.write_buffer (ground (arith, v.start));
    bytes = refl;
    same_mode = refl;
    valid = v;
  }
]

-- A write lays its bytes over those that are there.
pub write_at_lem :
    (offset : ℕ) (new : List ℕ) (s : Backend)
    → can_write s.mode ≡ true
    → (offset ≤ length (contents s)) ⊎ (0 < length new)
    → IsBackend s
    → Does s (Result.ok tt) (write_span (contents s) offset new) (write_at offset new s)
unfolding write_at place_at
write_at_lem offset new s m h v =
    let (f, nil, mode, l, v') = flush_buffer_lem s v in
    let size = length-write_span (contents s) offset new h in
    let start : max (flush_buffer s).write_buffer_start (offset + length new)
        ≡ length (write_span (contents s) offset new) =
      ap (λ (k : ℕ). max k (offset + length new)) (v'.start ∙ ap length f) ∙ sym size in
    let total : max (flush_buffer s).logical_len (offset + length new)
        ≡ length (write_span (contents s) offset new) =
      ap (λ (k : ℕ). max k (offset + length new)) (l ∙ v.total) ∙ sym size in
    rw m record {
      replied = refl;
      bytes = rw (f, nil) (append-nil _);
      same_mode = mode;
      valid = rw (f, nil) record { start = start; total = total ∙ ap length (sym (append-nil _)) };
    }

-- A writer's `sync` leaves the bytes as they are and has all of them in the file.
pub sync_lem :
    (s : Backend)
    → can_write s.mode ≡ true
    → IsBackend s
    → Does s tt (contents s) (sync s, tt) × ((sync s).file ≡ contents s)
unfolding sync
sync_lem s m v =
    let (f, nil, mode, l, v') = flush_buffer_lem s v in
    rw m (
      record { replied = refl; bytes = rw nil (append-nil _ ∙ f); same_mode = mode; valid = v' },
      f,
    )

-- `truncate` cuts or fills the file, not the contents: it forgets what only the buffer held.
pub truncate_lem :
    (n : ℕ) (s : Backend) → (contents (truncate n s) ≡ set_len s.file n) × IsBackend (truncate n s)
unfolding truncate set_len
truncate_lem n s =
    let size : n ≡ length (take n s.file ++ replicate {A = ℕ} (n - length s.file) 0) = ground (
      arith,
      length-append (take n s.file) (replicate (n - length s.file) 0),
      length-take n s.file,
      length-replicate {A = ℕ} (n - length s.file) 0,
    ) in
    (append-nil _, record { start = size; total = size ∙ ap length (sym (append-nil _)) })
