-- ===== src/Index/Toc/Updates.antt =====
-- What the operations of the table keep, and what `lookup` finds after them.
use orthos_i_dart_tpx.Base.{
  ℕ, ◌+◌, ◌%◌, ◌^◌, ◌≤◌, ◌<◌, ◌≡◌, ◌∙◌, refl, arith, sym, List, [], ◌∷◌, ◌++◌, length,
  length-append, true, false, if◌then◌else◌, bytes_eq, bytes_eq→eq, bytes_eq_refl, All, All-append,
  All-append_left, bytes_eq_sym, Option, none, some, append_assoc, append-nil, Bool-cases,
  Option-cases, inl, inr,
}
use orthos_i_dart_tpx.Index.Toc.{
  TocEntry, Toc, index_of, new_toc, index_from, build, add_entry, tombstone_entries, tombstone,
  lookup,
}
use orthos_i_dart_tpx.Index.Surf.{Surf}
use orthos_i_dart_tpx.Index.RadixSpline.{RadixSpline}
use orthos_i_dart_tpx.Index.Toc.Lookup.{
  IsToc, Apart, position, position-append, latest, live, latest_key, lookup_lem,
}

-- Marking an entry keeps its key and hash.
abbrev mark : List ℕ → TocEntry → TocEntry
mark key e = if bytes_eq e.key key then record e { tombstone = 1 } else e

mark_same :
    (key : List ℕ) (e : TocEntry)
    → ((mark key e).key ≡ e.key) × ((mark key e).key_hash ≡ e.key_hash)
mark_same key e = elim (Bool-cases (bytes_eq e.key key)) [
  | inl here ↦ rw here (refl, refl)
  | inr there ↦ rw there (refl, refl)
]

position-tombstone :
    (h : ℕ) (key : List ℕ) (entries : List TocEntry)
    → position h (tombstone_entries key entries) ≡ position h entries
unfolding position tombstone_entries
position-tombstone h key [] = refl
position-tombstone h key (e ∷ entries) =
    rw (position-tombstone h key entries, (mark_same key e).1) refl

All-tombstone :
    (P : List ℕ → ℕ → Type 0) (key : List ℕ) (entries : List TocEntry)
    → All (λ (e : TocEntry). P e.key e.key_hash) entries
    → All (λ (e : TocEntry). P e.key e.key_hash) (tombstone_entries key entries)
unfolding tombstone_entries
All-tombstone P key [] all = tt
All-tombstone P key (e ∷ entries) all =
    let (same_key, same_hash) = mark_same key e in
    (rw (same_key, same_hash) all.0, All-tombstone P key entries all.1)

abbrev marked : List ℕ → Option TocEntry → Option TocEntry
marked key none = none
marked key (some e) = some (mark key e)

latest-tombstone :
    (key j : List ℕ) (entries : List TocEntry)
    → latest j (tombstone_entries key entries) ≡ marked key (latest j entries)
unfolding latest tombstone_entries
latest-tombstone key j [] = refl
latest-tombstone key j (e ∷ entries) =
    rw (latest-tombstone key j entries, (mark_same key e).0)
      (elim (Option-cases (latest j entries)) [
        | inl nowhere ↦ rw nowhere (elim (Bool-cases (bytes_eq e.key j)) [
          | inl here ↦ rw here refl
          | inr there ↦ rw there refl
        ])
        | inr (later, found) ↦ rw found refl
      ])

latest-append :
    (j : List ℕ) (entries : List TocEntry) (e : TocEntry)
    → latest j (entries ++ (e ∷ [])) ≡ (if bytes_eq e.key j then some e else latest j entries)
unfolding latest
latest-append j [] e = refl
latest-append j (e' ∷ entries) e =
    rw (latest-append j entries e)
      (elim (Bool-cases (bytes_eq e.key j)) [ inl here ↦ rw here refl | inr there ↦ rw there refl ])

live-marked :
    (deleted key : List ℕ) (entries : List TocEntry)
    → live (marked deleted (latest key entries))
      ≡ (if bytes_eq deleted key then none else live (latest key entries))
live-marked deleted key entries = elim (Option-cases (latest key entries)) [
  | inl nowhere ↦ rw nowhere (elim (Bool-cases (bytes_eq deleted key)) [
    | inl here ↦ rw here refl
    | inr there ↦ rw there refl
  ])
  | inr (e, found) ↦
      let same : e.key ≡ key = bytes_eq→eq e.key key (latest_key key entries e found) in
      elim (Bool-cases (bytes_eq deleted key)) [
        | inl here ↦
            let hit : bytes_eq e.key deleted ≡ true =
              rw (same, bytes_eq→eq deleted key here) (bytes_eq_refl key) in
            rw (found, here, hit) refl
        | inr there ↦
            let miss : bytes_eq e.key deleted ≡ false = rw same (bytes_eq_sym key deleted there) in
            rw (found, there, miss) refl
      ]
]

module _ (xxh64 : List ℕ → ℕ) where
  pub add_entry-IsToc :
      (t : Toc) (e : TocEntry)
      → length t.entries < 2 ^ 32
      → e.key_hash ≡ xxh64 e.key
      → IsToc xxh64 t
      → IsToc xxh64 (add_entry t e)
  unfolding add_entry index_of
  add_entry-IsToc t e room hash v = record {
    indexed = λ h.
        let whole : length t.entries % 2 ^ 32 ≡ length t.entries = ground arith in
        rw (position-append h t.entries e, whole, v.indexed h) refl;
    hashed = All-append _ t.entries (e ∷ []) v.hashed (hash, tt);
  }

  pub tombstone-IsToc : (t : Toc) (key : List ℕ) → IsToc xxh64 t → IsToc xxh64 (tombstone t key)
  unfolding tombstone
  tombstone-IsToc t key v = record {
    indexed = λ h. v.indexed h ∙ sym (position-tombstone h key t.entries);
    hashed = All-tombstone (λ k h. h ≡ xxh64 k) key t.entries v.hashed;
  }

  -- A table without entries is in order, whatever the filter and the spline hold.
  empty-IsToc :
      (surf : Surf) (spline : RadixSpline)
      → IsToc xxh64 (record { entries = []; surf = surf; radix_spline = spline; hash_index = [] })
  unfolding index_of position
  empty-IsToc surf spline = record { indexed = λ h. refl; hashed = tt }

  pub new_toc-IsToc : IsToc xxh64 new_toc
  unfolding new_toc
  new_toc-IsToc = empty-IsToc _ _

  index_from-IsToc :
      (front : List TocEntry) (surf : Surf) (spline : RadixSpline) (index : List (ℕ × ℕ))
      (entries : List TocEntry)
      → length front + length entries ≤ 2 ^ 32
      → All (λ (e : TocEntry). e.key_hash ≡ xxh64 e.key) entries
      → IsToc xxh64
          (record { entries = front; surf = surf; radix_spline = spline; hash_index = index })
      → IsToc xxh64 (record {
        entries = front ++ entries;
        surf = surf;
        radix_spline = spline;
        hash_index = index_from (length front) entries index;
      })
  unfolding index_from add_entry
  index_from-IsToc front surf spline index [] room hash v = rw (append-nil front) v
  index_from-IsToc front surf spline index (e ∷ entries) room hash v =
      let t : Toc = record {
        entries = front;
        surf = surf;
        radix_spline = spline;
        hash_index = index;
      } in
      let next = add_entry-IsToc t e (omega arith) hash.0 v in
      let size : length (front ++ (e ∷ [])) ≡ length front + 1 = length-append front (e ∷ []) in
      let fits : length (front ++ (e ∷ [])) + length entries ≤ 2 ^ 32 = omega arith in
      let rest =
        index_from-IsToc (front ++ (e ∷ [])) surf spline
          ((e.key_hash, length front % 2 ^ 32) ∷ index) entries fits hash.1 next in
      rw (append_assoc front (e ∷ []) entries, size) at rest

  pub build-IsToc :
      (entries : List TocEntry)
      → length entries ≤ 2 ^ 32
      → All (λ (e : TocEntry). e.key_hash ≡ xxh64 e.key) entries
      → IsToc xxh64 (build entries)
  unfolding build new_toc
  build-IsToc entries room hash =
      index_from-IsToc [] _ _ [] entries (omega arith) hash (empty-IsToc _ _)

  -- In a table in order with room for another entry, and with no other key of the same hash as
  -- `key` in it: adding an entry that `TocEntry::new` made for a key gives a table in order, in which
  -- `lookup` finds that entry under its key, and under any other what it found before.
  pub lookup-add_entry :
      (t : Toc) (e : TocEntry) (key : List ℕ)
      → IsToc xxh64 t
      → length t.entries < 2 ^ 32
      → e.key_hash ≡ xxh64 e.key
      → Apart xxh64 key (add_entry t e).entries
      → IsToc xxh64 (add_entry t e)
        × (lookup xxh64 (add_entry t e) key
            ≡ (if bytes_eq e.key key then live (some e) else lookup xxh64 t key))
  unfolding add_entry
  lookup-add_entry t e key v room hash apart =
      let v' = add_entry-IsToc t e room hash v in
      let before = lookup_lem xxh64 t key v (All-append_left _ t.entries (e ∷ []) apart) in
      (
        v',
        lookup_lem xxh64 (add_entry t e) key v' apart
            ∙ rw (latest-append key t.entries e, before)
                (elim (Bool-cases (bytes_eq e.key key)) [
                  | inl here ↦ rw here refl
                  | inr there ↦ rw there refl
                ]),
      )

  -- In a table in order, and with no other key of the same hash as `key` in it: deleting a key gives
  -- a table in order, in which `lookup` finds nothing under that key, and under any other what it
  -- found before.
  pub lookup-tombstone :
      (t : Toc) (deleted key : List ℕ)
      → IsToc xxh64 t
      → Apart xxh64 key t.entries
      → IsToc xxh64 (tombstone t deleted)
        × (lookup xxh64 (tombstone t deleted) key
            ≡ (if bytes_eq deleted key then none else lookup xxh64 t key))
  unfolding tombstone
  lookup-tombstone t deleted key v apart =
      let v' = tombstone-IsToc t deleted v in
      let apart' = All-tombstone (λ k h. xxh64 k ≡ xxh64 key → k ≡ key) deleted t.entries apart in
      (
        v',
        lookup_lem xxh64 (tombstone t deleted) key v' apart'
            ∙ rw (latest-tombstone deleted key t.entries, lookup_lem xxh64 t key v apart)
                (live-marked deleted key t.entries),
      )
