-- ===== src/Version/Diff.antt =====
-- Lookups by id and the difference of two versions.
use orthos_i_dart_tpx.Base.{
  ℕ, suc, ◌-◌, ◌≡◌, refl, arith, List, [], ◌∷◌, none, some, get_elem?, if◌then◌else◌, leb, ◌&&◌,
  not,
}
use native.Mathlib.Decide.{dec_lt, ℕ_discrete}
use orthos_i_dart_tpx.Core.Error.{ok, err, version_not_found}
use orthos_i_dart_tpx.Version.{
  VersionEntry, VersionDiff, VersionChain, find, get_version, contains, difference, diff,
}
use orthos_i_dart_tpx.Version.Retention.{Counts}

find-Counts :
    (first : ℕ) (vs : List VersionEntry) (id : ℕ)
    → Counts first vs
    → find id vs ≡ (if leb first id then get_elem? vs (id - first) else none)
unfolding find
find-Counts first [] id h = ground arith
find-Counts first (v ∷ vs) id (e, h) = elim (dec_lt first id) [
  | yes above ↦
      let step : id - first ≡ suc (id - suc first) = omega arith in
      rw step (ground (arith, find-Counts (suc first) vs id h))
  | no upto ↦ elim (ℕ_discrete id first) [
    | yes here ↦ let zero_off : id - first ≡ 0 = omega arith in rw zero_off (ground arith)
    | no below ↦ ground (arith, find-Counts (suc first) vs id h)
  ]
]

-- In a chain whose ids count up from `first`, the lookup of an id finds the entry at the id's
-- distance from `first`, and nothing for an id below `first` or behind the last.
pub get_version_lem :
    (first : ℕ) (c : VersionChain) (id : ℕ)
    → Counts first c.versions
    → get_version c id ≡ (if leb first id then get_elem? c.versions (id - first) else none)
unfolding get_version
get_version_lem first c id h = find-Counts first c.versions id h

contains-difference :
    (x : ℕ) (xs ys : List ℕ)
    → contains x (difference xs ys) ≡ (contains x xs && not (contains x ys))
unfolding contains difference
contains-difference x [] ys = refl
contains-difference x (y ∷ xs) ys =
    ground (arith, contains-difference x xs ys, contains-difference y xs ys)

-- The difference of two versions that the chain has holds as added exactly the hashes of the
-- second version that the first lacks, and as removed those of the first that the second lacks.
-- If the chain lacks a version the error names the key and that id, the first id before the
-- second.
pub diff_lem :
    (c : VersionChain) (v1 v2 : ℕ)
    → ((e1 e2 : VersionEntry)
        → get_version c v1 ≡ some e1
        → get_version c v2 ≡ some e2
        → (d : VersionDiff) × (diff c v1 v2 ≡ ok d)
          × ((x : ℕ)
              → contains x d.added ≡ (contains x e2.chunk_refs && not (contains x e1.chunk_refs)))
          × ((x : ℕ)
              → contains x d.removed
                ≡ (contains x e1.chunk_refs && not (contains x e2.chunk_refs))))
      × (get_version c v1 ≡ none → diff c v1 v2 ≡ err (version_not_found c.key v1))
      × ((e1 : VersionEntry)
          → get_version c v1 ≡ some e1
          → get_version c v2 ≡ none
          → diff c v1 v2 ≡ err (version_not_found c.key v2))
unfolding diff
diff_lem c v1 v2 = (
  λ e1 e2 h1 h2. (
    record {
      added = difference e2.chunk_refs e1.chunk_refs;
      removed = difference e1.chunk_refs e2.chunk_refs;
    },
    ground arith,
    λ x. contains-difference x e2.chunk_refs e1.chunk_refs,
    λ x. contains-difference x e1.chunk_refs e2.chunk_refs,
  ),
  λ h. ground arith,
  λ e1 h1 h2. ground arith,
)
