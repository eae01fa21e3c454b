-- ===== src/Index/Toc/Lookup.antt =====
-- What `lookup` finds: the latest entry of a key, unless it is deleted.
use orthos_i_dart_tpx.Base.{
  ℕ, suc, ◌≡◌, ◌∙◌, refl, arith, ap, sym, List, [], ◌∷◌, ◌++◌, length, get_elem?, true, ◌==◌,
  if◌then◌else◌, bytes_eq, bytes_eq→eq, bytes_eq_refl, true_ne_false, All, Option, none, some,
  Option-cases, ◌⊎◌, Bool-cases, inl, inr,
}
use orthos_i_dart_tpx.Index.Toc.{TocEntry, Toc, index_of, live_entry, lookup}

-- The first of two that is there.
abbrev pub or_else {ℓ} : {A : Type ℓ} → Option A → Option A → Option A
or_else (some a) b = some a
or_else none b = b

-- The abstract table: the latest entry of a key, and that entry if it is not deleted.
unfoldable pub latest : List ℕ → List TocEntry → Option TocEntry
latest key [] = none
latest key (e ∷ rest) = or_else (latest key rest) (if bytes_eq e.key key then some e else none)

abbrev pub live : Option TocEntry → Option TocEntry
live none = none
live (some e) = if e.tombstone == 0 then some e else none

with_hash : ℕ → List TocEntry → Option TocEntry
with_hash h [] = none
with_hash h (e ∷ rest) = or_else (with_hash h rest) (if e.key_hash == h then some e else none)

abbrev moved : Option ℕ → Option ℕ
moved none = none
moved (some i) = some (suc i)

-- The index of the last entry with a hash.
unfoldable pub position : ℕ → List TocEntry → Option ℕ
position h [] = none
position h (e ∷ rest) = or_else (moved (position h rest)) (if e.key_hash == h then some 0 else none)

-- The table as the operations keep it: the index gives the last entry of every hash, every entry has
-- the hash of its key, and the positions fit the index.
pub record IsToc (xxh64 : List ℕ → ℕ) (t : Toc) : Type 0 where
  pub indexed : (h : ℕ) → index_of t.hash_index h ≡ position h t.entries
  pub hashed : All (λ (e : TocEntry). e.key_hash ≡ xxh64 e.key) t.entries

-- No entry of another key has the hash of this one.
abbrev pub Apart : (List ℕ → ℕ) → List ℕ → List TocEntry → Type 0
Apart xxh64 key = All (λ (e : TocEntry). xxh64 e.key ≡ xxh64 key → e.key ≡ key)

pub none_ne_some : {A : Type 0} (a : A) → none ≡ some a → ⊥
none_ne_some a h = cc

pub some_eq : {A : Type 0} (a b : A) → some a ≡ some b → a ≡ b
some_eq a b h = cc

pub position-append :
    (h : ℕ) (entries : List TocEntry) (e : TocEntry)
    → position h (entries ++ (e ∷ []))
      ≡ (if e.key_hash == h then some (length entries) else position h entries)
unfolding position
position-append h [] e = refl
position-append h (e' ∷ entries) e =
    rw (position-append h entries e)
      (elim (Bool-cases (e.key_hash == h)) [ inl here ↦ rw here refl | inr there ↦ rw there refl ])

-- What stands at the position: either there is none, or it is the last entry with the hash.
found_at :
    (h : ℕ) (entries : List TocEntry)
    → ((position h entries ≡ none) × (with_hash h entries ≡ none))
      ⊎ ((i : ℕ) × (e : TocEntry) × (position h entries ≡ some i)
          × (get_elem? entries i ≡ some e)
          × (with_hash h entries ≡ some e))
unfolding position with_hash
found_at h [] = inl (refl, refl)
found_at h (e ∷ entries) = elim (found_at h entries) [
  | inl (no_position, no_entry) ↦ elim (Bool-cases (e.key_hash == h)) [
    | inl here ↦ rw (no_position, no_entry, here) (inr (0, e, refl, refl, refl))
    | inr there ↦ rw (no_position, no_entry, there) (inl (refl, refl))
  ]
  | inr (i, found, at, entry, last) ↦ rw (at, last) (inr (suc i, found, refl, entry, refl))
]

module _ (xxh64 : List ℕ → ℕ) (key : List ℕ) where
  same_test :
      (e : TocEntry)
      → e.key_hash ≡ xxh64 e.key
      → (xxh64 e.key ≡ xxh64 key → e.key ≡ key)
      → (e.key_hash == xxh64 key) ≡ bytes_eq e.key key
  same_test e hashed apart = elim (Bool-cases (bytes_eq e.key key)) [
    | inl same ↦
        let k : e.key ≡ key = bytes_eq→eq e.key key same in
        let h : e.key_hash ≡ xxh64 key = hashed ∙ ap xxh64 k in rw same (ground arith)
    | inr other ↦ elim (Bool-cases (e.key_hash == xxh64 key)) [
      | inl clash ↦
          let h : e.key_hash ≡ xxh64 key = ground arith in
          let k : e.key ≡ key = apart (sym hashed ∙ h) in
          absurd (true_ne_false (sym (bytes_eq_refl key) ∙ rw k at other))
      | inr there ↦ rw (there, other) refl
    ]
  ]

  with_hash-latest :
      (entries : List TocEntry)
      → All (λ (e : TocEntry). e.key_hash ≡ xxh64 e.key) entries
      → Apart xxh64 key entries
      → with_hash (xxh64 key) entries ≡ latest key entries
  unfolding with_hash latest
  with_hash-latest [] hashed apart = refl
  with_hash-latest (e ∷ entries) hashed apart =
      rw (with_hash-latest entries hashed.1 apart.1, same_test e hashed.0 apart.0) refl

-- The latest entry of a key has that key.
pub latest_key :
    (key : List ℕ) (entries : List TocEntry) (e : TocEntry)
    → latest key entries ≡ some e
    → bytes_eq e.key key ≡ true
unfolding latest
latest_key key [] e h = cc
latest_key key (e' ∷ entries) e h = elim (Option-cases (latest key entries)) [
  | inl nowhere ↦ elim (Bool-cases (bytes_eq e'.key key)) [
    | inl here ↦ rw (some_eq e' e (rw (nowhere, here) at h)) at here
    | inr there ↦ absurd (none_ne_some e (rw (nowhere, there) at h))
  ]
  | inr (later, found) ↦ latest_key key entries e (found ∙ rw found at h)
]

live_entry-live :
    (key : List ℕ) (e : TocEntry) → bytes_eq e.key key ≡ true → live_entry key e ≡ live (some e)
unfolding live_entry
live_entry-live key e same = rw same refl

-- In a table in order, and if no other key has the hash of `key`, `lookup` finds the latest entry of
-- the key, and nothing if there is none or it is deleted.
pub lookup_lem :
    (xxh64 : List ℕ → ℕ) (t : Toc) (key : List ℕ)
    → IsToc xxh64 t
    → Apart xxh64 key t.entries
    → lookup xxh64 t key ≡ live (latest key t.entries)
unfolding lookup
lookup_lem xxh64 t key v apart =
    let last : with_hash (xxh64 key) t.entries ≡ latest key t.entries =
      with_hash-latest xxh64 key t.entries v.hashed apart in
    elim (found_at (xxh64 key) t.entries) [
      | inl (no_position, no_entry) ↦
          rw (lookup, v.indexed (xxh64 key), no_position, sym last, no_entry) refl
      | inr (i, e, at, entry, found) ↦
          let latest_e : latest key t.entries ≡ some e = sym last ∙ found in
          rw (lookup, v.indexed (xxh64 key), at, entry, latest_e)
            (live_entry-live key e (latest_key key t.entries e latest_e))
    ]
