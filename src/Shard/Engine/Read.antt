-- ===== src/Shard/Engine/Read.antt =====
-- The reading operations of `ShardedEngine` (crates/tpx-shard/src/engine.rs). A read may write the
-- buffer out, so each returns the engine as well. A `HashMap` that is returned is an association list.
use orthos_i_dart_tpx.Base.{
  ℕ, zero, suc, ◌+◌, ◌%◌, ◌^◌, List, [], ◌∷◌, ◌++◌, length, get_elem?, map, ◌==◌, ◌&&◌, not,
  if◌then◌else◌, Option, none, some, bytes_eq,
}
use orthos_i_dart_tpx.Core.Error.{Result, ok, err, key_not_found, version_not_found, ◌>>=◌}
use orthos_i_dart_tpx.Core.Types.{ChunkRef, OwnedTensor}
use orthos_i_dart_tpx.Core.DType.{DTypeId}
use orthos_i_dart_tpx.Core.Attrs.{Attrs}
use orthos_i_dart_tpx.Io.{Backend, read_at}
use orthos_i_dart_tpx.Index.Toc.{TocEntry, lookup, lookup_prefix, backwards, contains_key}
use orthos_i_dart_tpx.Version as Version
use orthos_i_dart_tpx.Version.{VersionDiff, contains, difference}
use orthos_i_dart_tpx.Shard.{Platform, get_chain}
use orthos_i_dart_tpx.Shard.Chunks.{open_chunk}
use orthos_i_dart_tpx.Shard.Engine.{Engine, shard_of}

-- The entries of a key, the oldest first.
unfoldable pub key_entries : List ℕ → List TocEntry → List TocEntry
key_entries key [] = []
key_entries key (entry ∷ rest) =
    let more = key_entries key rest in if bytes_eq entry.key key then entry ∷ more else more

unfoldable pub live_count : List TocEntry → ℕ
live_count [] = 0
live_count (entry ∷ rest) =
    let more = live_count rest in if entry.tombstone == 0 then 1 + more else more

-- `0..n`.
unfoldable pub upto : ℕ → List ℕ
upto zero = []
upto (suc n) = upto n ++ (n ∷ [])

-- The loop of `keys` over the entries, the latest first.
unfoldable pub keys_scan : List (List ℕ) → List TocEntry → List (List ℕ)
keys_scan seen [] = []
keys_scan seen (entry ∷ rest) =
    let skipped = keys_scan seen rest in
    let later = keys_scan (entry.key ∷ seen) rest in
    if not (length entry.key == 0) && not (contains_key seen entry.key)
    then (if entry.tombstone == 0 then entry.key ∷ later else later)
    else skipped

-- `insert` of a `HashMap` of results.
unfoldable pub insert_tensor :
    List (List ℕ × OwnedTensor) → List ℕ → OwnedTensor → List (List ℕ × OwnedTensor)
insert_tensor [] key t = (key, t) ∷ []
insert_tensor ((k, t') ∷ rest) key t =
    let more = insert_tensor rest key t in if bytes_eq k key then (k, t) ∷ rest else (k, t') ∷ more

module _ {Art : Type 0} (platform : Platform Art) where
  -- The loop of `read_tensor_from_entry`: the data of the chunks, one behind the other.
  unfoldable pub read_chunks : DTypeId → List ChunkRef → Backend → Backend × Result (List ℕ)
  unfolding open_chunk
  read_chunks dtype [] io = (io, ok [])
  read_chunks dtype (r ∷ refs) io =
      let (io', bytes) = read_at r.chunk_offset r.chunk_len io in
      let more = read_chunks dtype refs io' in
      elim (bytes >>= open_chunk platform r.chunk_offset dtype) [
        | err x ↦ (io', err x)
        | ok part ↦ (more.0, more.1 >>= λ rest. ok (part ++ rest))
      ]

  unfoldable pub read_tensor_from_entry : TocEntry → Engine Art → Engine Art × Result OwnedTensor
  unfolding read_chunks
  read_tensor_from_entry entry e =
      let (io', bytes) = read_chunks entry.dtype_id entry.chunk_refs e.io in
      (
        record e { io = io' },
        bytes >>= λ full. ok (record { dtype = entry.dtype_id; shape = entry.shape; bytes = full }),
      )

  unfoldable pub find_entry : Engine Art → List ℕ → Option TocEntry
  find_entry e key = lookup (λ k. platform.xxh64 k 0) e.master_toc key

  unfoldable pub get : List ℕ → Engine Art → Engine Art × Result (Option OwnedTensor)
  unfolding read_tensor_from_entry find_entry
  get key e = elim (find_entry e key) [
    | none ↦ (e, ok none)
    | some entry ↦
        let (e', tensor) = read_tensor_from_entry entry e in (e', tensor >>= λ t. ok (some t))
  ]

  unfoldable pub get_attrs : Engine Art → List ℕ → Result Attrs
  unfolding find_entry
  get_attrs e key = elim (find_entry e key) [
    | none ↦ err (key_not_found key)
    | some entry ↦ ok entry.attrs
  ]

  -- The loop of `get_prefix` over the matching entries.
  unfoldable pub get_each :
      List (List ℕ × OwnedTensor)
      → List TocEntry
      → Engine Art
      → Engine Art × Result (List (List ℕ × OwnedTensor))
  unfolding get insert_tensor
  get_each results [] e = (e, ok results)
  get_each results (entry ∷ rest) e =
      let (e', tensor) = get entry.key e in
      elim tensor [
        | err x ↦ (e', err x)
        | ok none ↦ get_each results rest e'
        | ok (some t) ↦ get_each (insert_tensor results entry.key t) rest e'
      ]

  unfoldable pub get_prefix :
      List ℕ → Engine Art → Engine Art × Result (List (List ℕ × OwnedTensor))
  unfolding get_each
  get_prefix prefix e = get_each [] (lookup_prefix e.master_toc prefix) e

  unfoldable pub get_batch :
      List (List ℕ) → Engine Art → Engine Art × Result (List (List ℕ × OwnedTensor))
  unfolding get
  get_batch [] e = (e, ok [])
  get_batch (key ∷ keys) e =
      let (e', tensor) = get key e in
      let more = get_batch keys e' in
      elim tensor [
        | err x ↦ (e', err x)
        | ok none ↦ more
        | ok (some t) ↦ (more.0, more.1 >>= λ rest. ok ((key, t) ∷ rest))
      ]

  unfoldable pub keys : Engine Art → Result (List (List ℕ))
  unfolding keys_scan
  keys e = ok (backwards (keys_scan [] (backwards e.master_toc.entries)))

  unfoldable pub list_versions_of_toc : Engine Art → List ℕ → Result (List ℕ)
  unfolding find_entry live_count upto
  list_versions_of_toc e key = elim (find_entry e key) [
    | none ↦ err (key_not_found key)
    | some entry ↦
        let count = live_count (key_entries key e.master_toc.entries) in
        if count == 0 then err (key_not_found key) else ok (upto (count % 2 ^ 32))
  ]

  -- The chain of the key in its shard.
  unfoldable pub chain_of : Engine Art → List ℕ → Option Version.VersionChain
  unfolding shard_of
  chain_of e key = elim (get_elem? e.shards (shard_of platform e key)) [
    | none ↦ none
    | some shard ↦ get_chain shard.version_chains key
  ]

  unfoldable pub list_versions : Engine Art → List ℕ → Result (List ℕ)
  unfolding chain_of list_versions_of_toc
  list_versions e key = elim (chain_of e key) [
    | none ↦ list_versions_of_toc e key
    | some c ↦
        if length c.versions == 0 then err (key_not_found key) else ok (Version.list_versions c)
  ]

  -- The test that a chain, where there is one, has the version.
  unfoldable pub check_version : Engine Art → List ℕ → ℕ → Result (Unit {0})
  unfolding chain_of
  check_version e key version = elim (chain_of e key) [
    | none ↦ ok tt
    | some c ↦
        if contains version (Version.list_versions c)
        then ok tt
        else err (version_not_found key version)
  ]

  unfoldable pub nth_entry : Engine Art → List ℕ → ℕ → Result TocEntry
  nth_entry e key version = elim (get_elem? (key_entries key e.master_toc.entries) version) [
    | none ↦ err (version_not_found key version)
    | some entry ↦ ok entry
  ]

  unfoldable pub version_entry : Engine Art → List ℕ → ℕ → Result TocEntry
  unfolding check_version find_entry nth_entry
  version_entry e key version = check_version e key version >>= λ _. elim (find_entry e key) [
    | none ↦ err (key_not_found key)
    | some entry ↦ nth_entry e key version
  ]

  unfoldable pub get_version : List ℕ → ℕ → Engine Art → Engine Art × Result (Option OwnedTensor)
  unfolding version_entry read_tensor_from_entry
  get_version key version e = elim (version_entry e key version) [
    | err x ↦ (e, err x)
    | ok entry ↦
        let (e', tensor) = read_tensor_from_entry entry e in (e', tensor >>= λ t. ok (some t))
  ]

  unfoldable pub offsets : TocEntry → List ℕ
  offsets entry = map (λ (r : ChunkRef). r.chunk_offset) entry.chunk_refs

  unfoldable pub some_entry : Engine Art → List ℕ → Result (Unit {0})
  some_entry e key =
      if length (key_entries key e.master_toc.entries) == 0 then err (key_not_found key) else ok tt

  unfoldable pub diff : Engine Art → List ℕ → ℕ → ℕ → Result VersionDiff
  unfolding check_version some_entry nth_entry offsets
  diff e key v1 v2 = do
    first ← check_version e key v1
    second ← check_version e key v2
    any ← some_entry e key
    e1 ← nth_entry e key v1
    e2 ← nth_entry e key v2
    ok (record {
      added = difference (offsets e2) (offsets e1);
      removed = difference (offsets e1) (offsets e2);
    })
