-- ===== src/Version.antt =====
-- crates/tpx-version/src/chain.rs: the versions of one key and their retention. Content hashes
-- (`u128`) are numbers; the clock of `VersionEntry::new` is an argument.
pub mod Examples
pub mod Retention
pub mod Diff
use orthos_i_dart_tpx.Base.{
  ℕ, zero, suc, ◌+◌, ◌-◌, ◌%◌, ◌^◌, max, List, [], ◌∷◌, ◌++◌, length, Bool, true, false, ltb, ◌==◌,
  ◌||◌, not, if◌then◌else◌, take, drop, map, Option, none, some,
}
use orthos_i_dart_tpx.Core.Error.{Result, ok, err, version_not_found, ◌>>=◌}
use orthos_i_dart_tpx.Core.DType.{DTypeId}
use orthos_i_dart_tpx.Core.Attrs.{AttrValue}

pub data RetentionPolicy : Type 0 where
  keep_latest : RetentionPolicy
  keep_last_n : ℕ → RetentionPolicy
  keep_forever : RetentionPolicy

pub record VersionEntry : Type 0 where
  pub version_id : ℕ
  pub timestamp : ℕ
  pub dtype_id : DTypeId
  pub shape : List ℕ
  pub attrs : List (List ℕ × AttrValue)
  pub chunk_refs : List ℕ

pub record VersionDiff : Type 0 where
  pub added : List ℕ
  pub removed : List ℕ

pub record VersionChain : Type 0 where
  pub key : List ℕ
  pub versions : List VersionEntry
  pub retention : RetentionPolicy

unfoldable pub new : List ℕ → RetentionPolicy → VersionChain
new key retention = record { key = key; versions = []; retention = retention }

unfoldable pub last : List VersionEntry → Option VersionEntry
last [] = none
last (v ∷ []) = some v
last (v ∷ w ∷ vs) = last (w ∷ vs)

unfoldable pub latest : VersionChain → Option VersionEntry
unfolding last
latest c = last c.versions

unfoldable pub find : ℕ → List VersionEntry → Option VersionEntry
find id [] = none
find id (v ∷ vs) = if v.version_id == id then some v else find id vs

unfoldable pub get_version : VersionChain → ℕ → Option VersionEntry
unfolding find
get_version c version = find version c.versions

unfoldable pub list_versions : VersionChain → List ℕ
list_versions c = map (λ v. v.version_id) c.versions

-- The chunk hashes of a run of entries, in order.
abbrev pub hashes : List VersionEntry → List ℕ
hashes [] = []
hashes (v ∷ vs) = v.chunk_refs ++ hashes vs

-- `drain(0..to_remove)` when there are more than `limit` entries.
drain : ℕ → VersionChain → VersionChain × List ℕ
drain limit c =
    if ltb limit (length c.versions)
    then (let to_remove = length c.versions - limit in
        (record c { versions = drop to_remove c.versions }, hashes (take to_remove c.versions)))
    else (c, [])

unfoldable pub retain : RetentionPolicy → VersionChain → VersionChain × List ℕ
unfolding drain
retain keep_latest c = drain 1 c
retain (keep_last_n n) c = drain (max n 1) c
retain keep_forever c = (c, [])

unfoldable pub apply_retention : VersionChain → VersionChain × List ℕ
unfolding retain
apply_retention c = retain c.retention c

unfoldable pub next_id : Option VersionEntry → ℕ
next_id none = 0
next_id (some v) = (v.version_id + 1) % 2 ^ 32

-- The chain afterwards, the new version's id and the chunk hashes that were evicted.
unfoldable pub append :
    ℕ
    → DTypeId
    → List ℕ
    → List (List ℕ × AttrValue)
    → List ℕ
    → VersionChain
    → VersionChain × ℕ × List ℕ
unfolding next_id latest
append now dtype_id shape attrs chunk_refs c =
    let id = next_id (latest c) in
    let entry : VersionEntry = record {
      version_id = id;
      timestamp = now;
      dtype_id = dtype_id;
      shape = shape;
      attrs = attrs;
      chunk_refs = chunk_refs;
    } in
    let (kept, evicted) = apply_retention (record c { versions = c.versions ++ (entry ∷ []) }) in
    (kept, id, evicted)

unfoldable pub contains : ℕ → List ℕ → Bool
contains x [] = false
contains x (y ∷ ys) = (x == y) || contains x ys

-- `HashSet::difference`, as a list without repetitions. The order of a set is not specified.
unfoldable pub difference : List ℕ → List ℕ → List ℕ
unfolding contains
difference [] ys = []
difference (x ∷ xs) ys =
    let rest = difference xs ys in if contains x ys || contains x rest then rest else x ∷ rest

found : List ℕ → ℕ → Option VersionEntry → Result VersionEntry
found key version none = err (version_not_found key version)
found key version (some v) = ok v

unfoldable pub diff : VersionChain → ℕ → ℕ → Result VersionDiff
unfolding found
diff c v1 v2 = do
  e1 ← found c.key v1 (get_version c v1)
  e2 ← found c.key v2 (get_version c v2)
  ok (record {
    added = difference e2.chunk_refs e1.chunk_refs;
    removed = difference e1.chunk_refs e2.chunk_refs;
  })
