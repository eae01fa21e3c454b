-- ===== src/Shard.antt =====
-- crates/tpx-shard: the shards (src/shard.rs), the choice of a key's shard (src/router.rs), and the
-- engine over them. The prefix tree of a shard, which the engine fills and never reads, is a type
-- with its operations, an argument.
pub mod Checkpoint
pub mod Chunks
pub mod Retention
pub mod Engine
pub mod Recovery
use orthos_i_dart_tpx.Base.{
  ℕ, ◌+◌, ◌%◌, ◌^◌, List, [], ◌∷◌, Bool, leb, if◌then◌else◌, Option, none, some, bytes_eq,
}
use orthos_i_dart_tpx.Core.Types.{ChunkRef}
use orthos_i_dart_tpx.Codec.Dispatch.{Compressors}
use orthos_i_dart_tpx.Version.{VersionChain}

-- `ArtTree<ChunkRef>`: `new`, `insert` and `remove`.
pub record ArtOps (Art : Type 0) : Type 0 where
  pub new_art : Art
  pub insert_art : List ℕ → ChunkRef → Art → Art
  pub remove_art : List ℕ → Art → Art

-- The third parties' functions: the hashes with their seed, the checksum, the compressors, and the
-- floating-point test of the codec choice.
pub record Platform (Art : Type 0) : Type 0 where
  pub xxh64 : List ℕ → ℕ → ℕ
  pub xxh3_128 : List ℕ → ℕ
  pub crc32 : List ℕ → ℕ
  pub compressors : Compressors
  pub high_entropy : List ℕ → Bool
  pub art : ArtOps Art

-- The map of version chains is an association list, the latest insertion first.
abbrev pub Chains : Type 0
Chains = List (List ℕ × VersionChain)

pub record Shard (Art : Type 0) : Type 0 where
  pub id : ℕ
  pub art : Art
  pub append_offset : ℕ
  pub version_chains : Chains
  pub chunk_count : ℕ

unfoldable pub get_chain : Chains → List ℕ → Option VersionChain
get_chain [] key = none
get_chain ((k, c) ∷ rest) key =
    let found = get_chain rest key in if bytes_eq k key then some c else found

unfoldable pub remove_chain : Chains → List ℕ → Chains
remove_chain [] key = []
remove_chain ((k, c) ∷ rest) key =
    let more = remove_chain rest key in if bytes_eq k key then more else (k, c) ∷ more

unfoldable pub set_chain : Chains → List ℕ → VersionChain → Chains
unfolding remove_chain
set_chain chains key c = (key, c) ∷ remove_chain chains key

-- `fetch_add` on `append_offset`: the shard afterwards and the offset before.
unfoldable pub allocate_append : {Art : Type 0} → ℕ → Shard Art → Shard Art × ℕ
allocate_append bytes_len s =
    (record s { append_offset = (s.append_offset + bytes_len) % 2 ^ 64 }, s.append_offset)

module _ {Art : Type 0} (platform : Platform Art) where
  unfoldable pub new_shard : ℕ → ℕ → Shard Art
  new_shard id start_offset = record {
    id = id;
    art = platform.art.new_art;
    append_offset = start_offset;
    version_chains = [];
    chunk_count = 0;
  }

  unfoldable pub shard_for_key : List ℕ → ℕ → ℕ
  shard_for_key key shard_count =
      if leb shard_count 1 then 0 else platform.xxh64 key 0 % shard_count % 2 ^ 16
