-- ===== src/Index/Toc/Prefix.antt =====
-- What `lookup_prefix` finds.
use orthos_i_dart_tpx.Base.{
  ℕ, ◌≡◌, ◌∙◌, refl, ap, List, [], ◌∷◌, ◌++◌, ◌==◌, ◌&&◌, not, if◌then◌else◌, bytes_eq, bytes_eq→eq,
  bytes_eq_refl, Option, none, some, Bool-cases, inl, inr,
}
use orthos_i_dart_tpx.Index.Toc.{
  TocEntry, Toc, starts_with, contains_key, prefix_scan, backwards, lookup_prefix,
}
use orthos_i_dart_tpx.Index.Toc.Lookup.{latest, live, or_else}

-- The first entry of a key.
unfoldable pub first : List ℕ → List TocEntry → Option TocEntry
first key [] = none
first key (e ∷ rest) = or_else (if bytes_eq e.key key then some e else none) (first key rest)

abbrev pub NoKeyTwice : List TocEntry → Type 0
NoKeyTwice [] = Unit
NoKeyTwice (e ∷ rest) = (first e.key rest ≡ none) × NoKeyTwice rest

first-append :
    (key : List ℕ) (xs ys : List TocEntry)
    → first key (xs ++ ys) ≡ or_else (first key xs) (first key ys)
unfolding first
first-append key [] ys = refl
first-append key (e ∷ xs) ys =
    rw (first-append key xs ys) (elim (Bool-cases (bytes_eq e.key key)) [
      | inl here ↦ rw here refl
      | inr there ↦ rw there refl
    ])

first-backwards :
    (key : List ℕ) (entries : List TocEntry) → first key (backwards entries) ≡ latest key entries
unfolding backwards latest first
first-backwards key [] = refl
first-backwards key (e ∷ entries) =
    first-append key (backwards entries) (e ∷ [])
    ∙ rw (first-backwards key entries) (elim (Bool-cases (bytes_eq e.key key)) [
      | inl here ↦ rw here refl
      | inr there ↦ rw there refl
    ])

module _ (prefix : List ℕ) where
  first-prefix_scan :
      (key : List ℕ) (seen : List (List ℕ)) (entries : List TocEntry)
      → first key (prefix_scan prefix seen entries) ≡ (
          if contains_key seen key
          then none
          else (if starts_with key prefix then live (first key entries) else none))
  unfolding prefix_scan first contains_key
  first-prefix_scan key seen [] = elim (Bool-cases (contains_key seen key)) [
    | inl old ↦ rw old refl
    | inr new ↦ rw new (elim (Bool-cases (starts_with key prefix)) [
      | inl fits ↦ rw fits refl
      | inr other ↦ rw other refl
    ])
  ]
  first-prefix_scan key seen (e ∷ entries) =
      let skipped = first-prefix_scan key seen entries in
      let later = first-prefix_scan key (e.key ∷ seen) entries in
      elim (Bool-cases (bytes_eq e.key key)) [
        | inl same ↦
            let k : e.key ≡ key = bytes_eq→eq e.key key same in
            let st : starts_with e.key prefix ≡ starts_with key prefix =
              ap (λ x. starts_with x prefix) k in
            let co : contains_key seen e.key ≡ contains_key seen key = ap (contains_key seen) k in
            elim (Bool-cases (starts_with key prefix)) [
              | inl fits ↦ elim (Bool-cases (contains_key seen key)) [
                | inl old ↦ rw (st, co, fits, old) (rw old at skipped)
                | inr new ↦ elim (Bool-cases (e.tombstone == 0)) [
                  | inl alive ↦ rw (st, co, fits, new, same, alive, same) refl
                  | inr dead ↦ rw (st, co, fits, new, same, dead) (rw same at later)
                ]
              ]
              | inr other ↦ rw (st, other) (rw other at skipped)
            ]
        | inr apart ↦ elim (Bool-cases (starts_with e.key prefix)) [
          | inl fits ↦ elim (Bool-cases (contains_key seen e.key)) [
            | inl old ↦ rw (fits, old, apart) skipped
            | inr new ↦ elim (Bool-cases (e.tombstone == 0)) [
              | inl alive ↦ rw (fits, new, alive, apart) (rw apart at later)
              | inr dead ↦ rw (fits, new, dead, apart) (rw apart at later)
            ]
          ]
          | inr other ↦ rw (other, apart) skipped
        ]
      ]

  prefix_scan-NoKeyTwice :
      (seen : List (List ℕ)) (entries : List TocEntry)
      → NoKeyTwice (prefix_scan prefix seen entries)
  unfolding prefix_scan contains_key
  prefix_scan-NoKeyTwice seen [] = tt
  prefix_scan-NoKeyTwice seen (e ∷ entries) =
      elim (Bool-cases (starts_with e.key prefix && not (contains_key seen e.key))) [
        | inl taken ↦ elim (Bool-cases (e.tombstone == 0)) [
          | inl alive ↦
              let after = first-prefix_scan e.key (e.key ∷ seen) entries in
              rw (taken, alive)
                (rw (bytes_eq_refl e.key) at after, prefix_scan-NoKeyTwice (e.key ∷ seen) entries)
          | inr dead ↦ rw (taken, dead) (prefix_scan-NoKeyTwice (e.key ∷ seen) entries)
        ]
        | inr passed ↦ rw passed (prefix_scan-NoKeyTwice seen entries)
      ]

-- `lookup_prefix` lists no key twice, and under a key it lists the latest entry of the key, if the
-- key starts with the prefix and is not deleted; any other key is not listed.
pub lookup_prefix_lem :
    (t : Toc) (prefix : List ℕ)
    → NoKeyTwice (lookup_prefix t prefix)
      × ((key : List ℕ)
          → first key (lookup_prefix t prefix)
            ≡ (if starts_with key prefix then live (latest key t.entries) else none))
unfolding lookup_prefix
lookup_prefix_lem t prefix = (
  prefix_scan-NoKeyTwice prefix [] (backwards t.entries),
  λ key.
      first-prefix_scan prefix key [] (backwards t.entries)
      ∙ rw (first-backwards key t.entries) refl,
)
