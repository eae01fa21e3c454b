-- ===== src/Shard/Engine/Store.antt =====
-- The chunks of the content store: what a reference to a chunk gives back, and what keeps the store
-- right about the archive.
use orthos_i_dart_tpx.Base.{
  ℕ, ◌+◌, ◌^◌, ◌≤◌, ◌<◌, ◌≡◌, refl, arith, sym, List, [], ◌∷◌, ◌++◌, length, length-append, take,
  drop, take_all, drop-append_len, true, leb, ◌==◌, if◌then◌else◌, Bool-cases, Option-cases, inl,
  inr, some, none,
}
use orthos_i_dart_tpx.Core.Error.{Result, ok, ◌>>=◌}
use orthos_i_dart_tpx.Core.Types.{ChunkRef}
use orthos_i_dart_tpx.Core.DType.{DTypeId}
use orthos_i_dart_tpx.Io.{can_write, read_span}
use orthos_i_dart_tpx.Io.Contents.{contents, IsBackend, read_span_front}
use orthos_i_dart_tpx.Dedup.ContentStore as ContentStore
use orthos_i_dart_tpx.Dedup.ContentStore.{ContentStore, ContentEntry}
use orthos_i_dart_tpx.Dedup.ContentStore.Counts.{lookup-insert}
use orthos_i_dart_tpx.Dedup.Cdc.{CdcSegment}
use mathlib.Core.Option as Option
use orthos_i_dart_tpx.Shard.{Platform}
use orthos_i_dart_tpx.Shard.Chunks.{open_chunk}
use orthos_i_dart_tpx.Shard.Chunks.RoundTrip.{
  IsPlatform, chunk_of, make_chunk_lem, open_chunk-make_chunk,
}
use orthos_i_dart_tpx.Shard.Engine.{Engine}

pub read_span_end :
    (front bytes : List ℕ) → read_span (front ++ bytes) (length front) (length bytes) ≡ ok bytes
unfolding read_span
read_span_end front bytes =
    let inside : leb (length front + length bytes) (length (front ++ bytes)) ≡ true =
      ground (arith, length-append front bytes) in
    rw
      (
        inside,
        drop-append_len (length front) front bytes refl,
        take_all (length bytes) bytes (omega arith),
      )
      (elim (Bool-cases (length bytes == 0)) [
        | inl none_left ↦ rw none_left refl
        | inr left ↦ rw left refl
      ])

some_eq : {A : Type 0} {a b : A} → some a ≡ some b → a ≡ b
some_eq h = cc

none_ne_some : {A : Type 0} {a : A} → none ≡ some a → ⊥
none_ne_some h = cc

abbrev pub ref_of : ContentEntry → ChunkRef
ref_of e = record { shard_id = e.shard_id; chunk_offset = e.chunk_offset; chunk_len = e.chunk_len }

-- The bytes of a segment.
abbrev pub slice : List ℕ → CdcSegment → List ℕ
slice bytes seg = take seg.len (drop seg.offset bytes)

-- `Known` are the contents in play, among which no two have the same hash.
module _ {Art : Type 0} (platform : Platform Art) (Known : List ℕ → Type 0) where
  -- A reference into the bytes of an archive at which a block is found.
  pub record Holds (bytes : List ℕ) (r : ChunkRef) (block : List ℕ) : Type 0 where
    pub inside : r.chunk_offset + r.chunk_len ≤ length bytes
    pub opens :
        (dtype : DTypeId)
        → (read_span bytes r.chunk_offset r.chunk_len >>= open_chunk platform r.chunk_offset dtype)
          ≡ ok block

  pub Holds-append :
      (bytes more : List ℕ) (r : ChunkRef) (block : List ℕ)
      → Holds bytes r block
      → Holds (bytes ++ more) r block
  Holds-append bytes more r block v = record {
    inside = omega (arith, v.inside, length-append bytes more);
    opens = λ dtype.
        rw (sym (read_span_front r.chunk_offset r.chunk_len bytes more v.inside)) (v.opens dtype);
  }

  pub record StoredAs (bytes : List ℕ) (h : ℕ) (entry : ContentEntry) : Type 0 where
    pub block : List ℕ
    pub known : Known block
    pub hashed : platform.xxh3_128 block ≡ h
    pub held : Holds bytes (ref_of entry) block

  -- Every entry of a content store is right about the bytes of the archive.
  abbrev pub IsStored : List ℕ → ContentStore → Type 0
  IsStored bytes store =
      (h : ℕ) (entry : ContentEntry)
      → ContentStore.lookup store h ≡ some entry
      → StoredAs bytes h entry

  -- An engine that can write, whose content store is right about the archive.
  pub record Ready (e : Engine Art) : Type 0 where
    pub io_ok : IsBackend e.io
    pub writable : can_write e.io.mode ≡ true
    pub align_small : e.header.chunk_align ≤ 2 ^ 30
    pub stored : IsStored (contents e.io) e.content_store

  -- A segment is in the archive, whose bytes have at most grown.
  pub record Wrote (e : Engine Art) (block : List ℕ) (r : Engine Art × Result ChunkRef)
      : Type 0 where
    pub chunk_ref : ChunkRef
    pub replied : r.1 ≡ ok chunk_ref
    pub ready : Ready r.0
    pub held : Holds (contents r.0.io) chunk_ref block
    pub more : List ℕ
    pub grown : contents r.0.io ≡ contents e.io ++ more
    pub same_toc : r.0.master_toc ≡ e.master_toc
    pub same_mode : r.0.mode ≡ e.mode
    pub same_shards : r.0.shards ≡ e.shards

  -- Where the data of a list of references is found.
  abbrev pub HoldsAll : List ℕ → List ChunkRef → List ℕ → Type 0
  HoldsAll bytes [] found = found ≡ []
  HoldsAll bytes (r ∷ refs) found =
      (block : List ℕ) × (rest : List ℕ) × Holds bytes r block
      × HoldsAll bytes refs rest
      × (found ≡ block ++ rest)

  pub record WroteAll (e : Engine Art) (written : List ℕ) (r : Engine Art × Result (List ChunkRef))
      : Type 0 where
    pub chunk_refs : List ChunkRef
    pub replied : r.1 ≡ ok chunk_refs
    pub ready : Ready r.0
    pub held : HoldsAll (contents r.0.io) chunk_refs written
    pub more : List ℕ
    pub grown : contents r.0.io ≡ contents e.io ++ more
    pub same_toc : r.0.master_toc ≡ e.master_toc
    pub same_mode : r.0.mode ≡ e.mode
    pub same_shards : r.0.shards ≡ e.shards

  -- A segment of the data, with the hash of its bytes, among the contents in play.
  pub record IsSegment (bytes : List ℕ) (seg : CdcSegment) : Type 0 where
    pub hashed : seg.content_hash ≡ platform.xxh3_128 (slice bytes seg)
    pub small : length (slice bytes seg) < 2 ^ 30
    pub known : Known (slice bytes seg)

  pub new_chunk-Holds :
      (bytes block : List ℕ) (r : ChunkRef) (chunk_align : ℕ)
      → IsPlatform platform
      → length block < 2 ^ 30
      → r.chunk_offset ≡ length bytes
      → r.chunk_len ≡ length (chunk_of platform block chunk_align)
      → Holds (bytes ++ chunk_of platform block chunk_align) r block
  new_chunk-Holds bytes block r chunk_align v small at len =
      let chunk = chunk_of platform block chunk_align in
      record {
        inside = omega (arith, at, len, length-append bytes chunk);
        opens = λ dtype.
            rw (at, len, read_span_end bytes chunk)
              (rw (make_chunk_lem platform block dtype chunk_align) at (
                open_chunk-make_chunk platform block dtype dtype chunk_align (length bytes) v
                  small));
      }

  pub StoredAs-append :
      (bytes more : List ℕ) (h : ℕ) (entry : ContentEntry)
      → StoredAs bytes h entry
      → StoredAs (bytes ++ more) h entry
  StoredAs-append bytes more h entry v = record {
    block = v.block;
    known = v.known;
    hashed = v.hashed;
    held = Holds-append bytes more (ref_of entry) v.block v.held;
  }

  pub IsStored-append :
      (bytes more : List ℕ) (store : ContentStore)
      → IsStored bytes store
      → IsStored (bytes ++ more) store
  IsStored-append bytes more store v h entry found =
      StoredAs-append bytes more h entry (v h entry found)

  pub IsStored-insert :
      (bytes : List ℕ) (hash : ℕ) (entry : ContentEntry) (store : ContentStore)
      → IsStored bytes store
      → StoredAs bytes hash entry
      → IsStored bytes (ContentStore.insert store hash entry).0
  IsStored-insert bytes hash entry store v new j old found =
      elim (Option-cases (ContentStore.lookup store j)) [
        | inl absent ↦ elim (Bool-cases (hash == j)) [
          | inl here ↦
              let same : entry ≡ old =
                some_eq (rw (lookup-insert store hash j entry, absent, here) at found) in
              let at : hash ≡ j = ground arith in rw (sym same, sym at) new
          | inr there ↦
              absurd (none_ne_some (rw (lookup-insert store hash j entry, absent, there) at found))
        ]
        | inr (kept, present) ↦
            let same : kept ≡ old =
              some_eq (rw (lookup-insert store hash j entry, present) at found) in
            v j old (rw same at present)
      ]

  StoredAs-recounted :
      (bytes : List ℕ) (h : ℕ) (entry : ContentEntry) (f : ContentEntry → ContentEntry)
      → ((e : ContentEntry) → ref_of (f e) ≡ ref_of e)
      → StoredAs bytes h entry
      → StoredAs bytes h (f entry)
  StoredAs-recounted bytes h entry f same v = record {
    block = v.block;
    known = v.known;
    hashed = v.hashed;
    held = rw (same entry) v.held;
  }

  -- A change of reference counts leaves the store right.
  pub IsStored-recounted :
      (bytes : List ℕ) (hash : ℕ) (store store' : ContentStore) (f : ContentEntry → ContentEntry)
      → ((e : ContentEntry) → ref_of (f e) ≡ ref_of e)
      → ((j : ℕ)
          → ContentStore.lookup store' j ≡ (
              if hash == j
              then Option.map f (ContentStore.lookup store j)
              else ContentStore.lookup store j))
      → IsStored bytes store
      → IsStored bytes store'
  IsStored-recounted bytes hash store store' f same counts v j old found =
      elim (Bool-cases (hash == j)) [
        | inl here ↦ elim (Option-cases (ContentStore.lookup store j)) [
          | inl absent ↦ absurd (none_ne_some (rw (counts j, here, absent) at found))
          | inr (kept, present) ↦
              let moved : f kept ≡ old = some_eq (rw (counts j, here, present) at found) in
              rw (sym moved) (StoredAs-recounted bytes j kept f same (v j kept present))
        ]
        | inr there ↦ v j old (rw (counts j, there) at found)
      ]
