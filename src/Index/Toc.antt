-- ===== src/Index/Toc.antt =====
-- crates/tpx-index/src/toc.rs: the table of contents. `xxh64` with seed 0 is a third party's and a
-- parameter. The hash index is an association list with the latest insertion first.
pub mod Binary
pub mod RoundTrip
pub mod Lookup
pub mod Updates
pub mod Prefix
pub mod Examples
use orthos_i_dart_tpx.Base.{
  ℕ, zero, suc, ◌+◌, ◌%◌, ◌^◌, List, [], ◌∷◌, ◌++◌, length, get_elem?, map, leb, Bool, true, false,
  ◌==◌, ◌&&◌, not, if◌then◌else◌, bytes_eq, Option, none, some,
}
use orthos_i_dart_tpx.Core.Types.{ChunkRef}
use orthos_i_dart_tpx.Core.DType.{DTypeId}
use orthos_i_dart_tpx.Core.Attrs.{Attrs}
use orthos_i_dart_tpx.Index.Surf as Surf
use orthos_i_dart_tpx.Index.Surf.{Surf}
use orthos_i_dart_tpx.Index.RadixSpline as RadixSpline
use orthos_i_dart_tpx.Index.RadixSpline.{RadixSpline}

pub record TocEntry : Type 0 where
  pub key_hash : ℕ
  pub key : List ℕ
  pub dtype_id : DTypeId
  pub shape : List ℕ
  pub attrs : Attrs
  pub chunk_refs : List ChunkRef
  pub tombstone : ℕ

pub record Toc : Type 0 where
  pub entries : List TocEntry
  pub surf : Surf
  pub radix_spline : RadixSpline
  pub hash_index : List (ℕ × ℕ)

-- `HashMap::get`.
unfoldable pub index_of : List (ℕ × ℕ) → ℕ → Option ℕ
index_of [] hash = none
index_of ((h, i) ∷ rest) hash =
    let found = index_of rest hash in if h == hash then some i else found

unfoldable pub new_toc : Toc
new_toc = record {
  entries = [];
  surf = record { keys = [] };
  radix_spline = record { keys = []; positions = [] };
  hash_index = [];
}

-- The loop of `build` over the entries from index `idx` on.
unfoldable pub index_from : ℕ → List TocEntry → List (ℕ × ℕ) → List (ℕ × ℕ)
index_from idx [] index = index
index_from idx (e ∷ rest) index = index_from (idx + 1) rest ((e.key_hash, idx % 2 ^ 32) ∷ index)

-- `sorted_pairs`: the hashes with their indices, and its stable sort by the hash.
unfoldable pub insert_pair : ℕ × ℕ → List (ℕ × ℕ) → List (ℕ × ℕ)
insert_pair (k, i) [] = (k, i) ∷ []
insert_pair (k, i) ((k', i') ∷ rest) =
    let more = insert_pair (k, i) rest in
    if leb k k' then (k, i) ∷ (k', i') ∷ rest else (k', i') ∷ more

unfoldable pub sorted_pairs : ℕ → List TocEntry → List (ℕ × ℕ)
unfolding insert_pair
sorted_pairs idx [] = []
sorted_pairs idx (e ∷ rest) = insert_pair (e.key_hash, idx % 2 ^ 32) (sorted_pairs (idx + 1) rest)

unfoldable pub build : List TocEntry → Toc
unfolding index_from sorted_pairs
build entries =
    let pairs = sorted_pairs 0 entries in
    record {
      entries = entries;
      surf = Surf.build (map (λ (e : TocEntry). e.key) entries);
      radix_spline = RadixSpline.build (map (λ p. p.0) pairs) (map (λ p. p.1) pairs);
      hash_index = index_from 0 entries [];
    }

unfoldable pub add_entry : Toc → TocEntry → Toc
add_entry t entry = record t {
  entries = t.entries ++ (entry ∷ []);
  hash_index = (entry.key_hash, length t.entries % 2 ^ 32) ∷ t.hash_index;
}

unfoldable pub tombstone_entries : List ℕ → List TocEntry → List TocEntry
tombstone_entries key [] = []
tombstone_entries key (e ∷ rest) =
    (if bytes_eq e.key key then record e { tombstone = 1 } else e) ∷ tombstone_entries key rest

unfoldable pub tombstone : Toc → List ℕ → Toc
unfolding tombstone_entries
tombstone t key = record t { entries = tombstone_entries key t.entries }

unfoldable pub entry_count : Toc → ℕ
entry_count t = length t.entries

-- `str::starts_with`.
unfoldable pub starts_with : List ℕ → List ℕ → Bool
starts_with key [] = true
starts_with [] (p ∷ prefix) = false
starts_with (k ∷ key) (p ∷ prefix) = (k == p) && starts_with key prefix

unfoldable pub contains_key : List (List ℕ) → List ℕ → Bool
contains_key [] key = false
contains_key (k ∷ seen) key =
    let more = contains_key seen key in if bytes_eq k key then true else more

-- The loop of `lookup_prefix` over the entries, the latest first.
unfoldable pub prefix_scan : List ℕ → List (List ℕ) → List TocEntry → List TocEntry
unfolding starts_with contains_key
prefix_scan prefix seen [] = []
prefix_scan prefix seen (e ∷ rest) =
    let skipped = prefix_scan prefix seen rest in
    let later = prefix_scan prefix (e.key ∷ seen) rest in
    if starts_with e.key prefix && not (contains_key seen e.key)
    then (if e.tombstone == 0 then e ∷ later else later)
    else skipped

-- `iter().rev()`.
unfoldable pub backwards : {A : Type 0} → List A → List A
backwards [] = []
backwards (x ∷ xs) = backwards xs ++ (x ∷ [])

unfoldable pub lookup_prefix : Toc → List ℕ → List TocEntry
unfolding prefix_scan backwards
lookup_prefix t prefix = prefix_scan prefix [] (backwards t.entries)

-- The last test of `lookup`.
unfoldable pub live_entry : List ℕ → TocEntry → Option TocEntry
live_entry key entry = if bytes_eq entry.key key && (entry.tombstone == 0) then some entry else none

module _ (xxh64 : List ℕ → ℕ) where
  -- `TocEntry::new`.
  unfoldable pub new_entry : List ℕ → DTypeId → List ℕ → Attrs → List ChunkRef → TocEntry
  new_entry key dtype_id shape attrs chunk_refs = record {
    key_hash = xxh64 key;
    key = key;
    dtype_id = dtype_id;
    shape = shape;
    attrs = attrs;
    chunk_refs = chunk_refs;
    tombstone = 0;
  }

  unfoldable pub lookup : Toc → List ℕ → Option TocEntry
  unfolding live_entry index_of
  lookup t key = elim (index_of t.hash_index (xxh64 key)) [
    | none ↦ none
    | some idx ↦ elim (get_elem? t.entries idx) [ none ↦ none | some entry ↦ live_entry key entry ]
  ]
