-- ===== src/Dedup/ContentStore.antt =====
-- crates/tpx-dedup/src/content_store.rs: chunks by content hash, with reference counts. The
-- concurrent map is an association list; the shared atomic counter of an entry stands in it.
pub mod Counts
use orthos_i_dart_tpx.Base.{
  ℕ, ◌+◌, ◌-◌, ◌%◌, ◌^◌, List, [], ◌∷◌, Bool, true, false, length, Option, none, some, ◌==◌,
  if◌then◌else◌,
}
use orthos_i_dart_tpx.Core.Error.{Result, ok, err, key_not_found}

pub record ContentEntry : Type 0 where
  pub shard_id : ℕ
  pub chunk_offset : ℕ
  pub chunk_len : ℕ
  pub refcount : ℕ

abbrev pub ContentStore : Type 0
ContentStore = List (ℕ × ContentEntry)

unfoldable pub lookup : ContentStore → ℕ → Option ContentEntry
lookup [] hash = none
lookup ((h, e) ∷ rest) hash = if h == hash then some e else lookup rest hash

unfoldable pub contains_key : ContentStore → ℕ → Bool
contains_key [] hash = false
contains_key ((h, e) ∷ rest) hash = if h == hash then true else contains_key rest hash

-- The store and whether the entry is new.
unfoldable pub insert : ContentStore → ℕ → ContentEntry → ContentStore × Bool
unfolding contains_key
insert s hash entry = if contains_key s hash then (s, false) else ((hash, entry) ∷ s, true)

unfoldable pub set_count : ContentStore → ℕ → ℕ → ContentStore
set_count [] hash n = []
set_count ((h, e) ∷ rest) hash n =
    if h == hash then (h, record e { refcount = n }) ∷ rest else (h, e) ∷ set_count rest hash n

-- `KeyNotFound` with the hash; the source formats it as hexadecimal text.
missing : ℕ → Result ℕ
missing hash = err (key_not_found (hash ∷ []))

-- `fetch_add` on a 32-bit counter wraps; the returned sum overflows with it.
counted_up : ContentStore → ℕ → Option ContentEntry → ContentStore × Result ℕ
unfolding set_count missing
counted_up s hash none = (s, missing hash)
counted_up s hash (some e) = let n = (e.refcount + 1) % 2 ^ 32 in (set_count s hash n, ok n)

unfoldable pub add_ref : ContentStore → ℕ → ContentStore × Result ℕ
unfolding counted_up
add_ref s hash = counted_up s hash (lookup s hash)

-- `fetch_sub` wraps below 0, while the returned count stops at 0.
counted_down : ContentStore → ℕ → Option ContentEntry → ContentStore × Result ℕ
unfolding set_count missing
counted_down s hash none = (s, missing hash)
counted_down s hash (some e) =
    (set_count s hash ((e.refcount + 2 ^ 32 - 1) % 2 ^ 32), ok (e.refcount - 1))

unfoldable pub release : ContentStore → ℕ → ContentStore × Result ℕ
unfolding counted_down
release s hash = counted_down s hash (lookup s hash)

unfoldable pub gc_candidates : ContentStore → List (ℕ × ContentEntry)
gc_candidates [] = []
gc_candidates ((h, e) ∷ rest) =
    let more = gc_candidates rest in if e.refcount == 0 then (h, e) ∷ more else more

unfoldable pub without : ContentStore → ℕ → ContentStore
without [] hash = []
without ((h, e) ∷ rest) hash =
    let more = without rest hash in if h == hash then more else (h, e) ∷ more

unfoldable pub remove : ContentStore → ℕ → ContentStore × Option ContentEntry
unfolding without
remove s hash = (without s hash, lookup s hash)
