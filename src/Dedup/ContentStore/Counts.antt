-- ===== src/Dedup/ContentStore/Counts.antt =====
-- What each operation of the store does to every entry, and how the reference counts move.
use orthos_i_dart_tpx.Base.{
  ℕ, ◌+◌, ◌-◌, ◌%◌, ◌^◌, ◌≡◌, refl, arith, List, [], ◌∷◌, Bool, true, false, Option, none, some,
  ◌==◌, ltb, if◌then◌else◌, Bool-cases, Option-cases, inl, inr, IsU32, ap,
}
use orthos_i_dart_tpx.Core.Error.{ok}
use orthos_i_dart_tpx.Dedup.ContentStore.{
  ContentEntry, ContentStore, lookup, contains_key, insert, set_count, add_ref, release,
  gc_candidates, counted_down,
}
use mathlib.Core.Option

abbrev pub is_some {ℓ} : {A : Type ℓ} → Option A → Bool
is_some none = false
is_some (some a) = true

contains_key-lookup : (s : ContentStore) (h : ℕ) → contains_key s h ≡ is_some (lookup s h)
unfolding contains_key lookup
contains_key-lookup [] h = refl
contains_key-lookup ((k, e) ∷ s) h = ground (arith, contains_key-lookup s h)

abbrev pub recount : ℕ → ContentEntry → ContentEntry
recount n e = record e { refcount = n }

lookup-set_count :
    (s : ContentStore) (h j n : ℕ)
    → lookup (set_count s h n) j
      ≡ (if h == j then Option.map (recount n) (lookup s j) else lookup s j)
unfolding lookup set_count
lookup-set_count [] h j n = ground arith
lookup-set_count ((k, e) ∷ s) h j n = ground (arith, lookup-set_count s h j n)

-- An insertion adds the entry only if its hash is new; whatever the store has stays as it is.
pub lookup-insert :
    (s : ContentStore) (h j : ℕ) (e : ContentEntry)
    → lookup (insert s h e).0 j
      ≡ elim (lookup s j) [ some old ↦ some old | none ↦ if h == j then some e else none ]
unfolding insert lookup
lookup-insert s h j e = ground (arith, contains_key-lookup s h)

abbrev pub bump : ContentEntry → ContentEntry
bump e = record e { refcount = (e.refcount + 1) % 2 ^ 32 }

abbrev pub drop_one : ContentEntry → ContentEntry
drop_one e = record e { refcount = (e.refcount + 2 ^ 32 - 1) % 2 ^ 32 }

pub lookup-add_ref :
    (s : ContentStore) (h j : ℕ)
    → lookup (add_ref s h).0 j ≡ (if h == j then Option.map bump (lookup s j) else lookup s j)
unfolding add_ref
lookup-add_ref s h j = elim (Option-cases (lookup s h)) [
  | inl absent ↦ ground arith
  | inr (e, found) ↦ ground (arith, lookup-set_count s h j ((e.refcount + 1) % 2 ^ 32))
]

pub lookup-release :
    (s : ContentStore) (h j : ℕ)
    → lookup (release s h).0 j ≡ (if h == j then Option.map drop_one (lookup s j) else lookup s j)
unfolding release
lookup-release s h j = elim (Option-cases (lookup s h)) [
  | inl absent ↦ ground arith
  | inr (e, found) ↦ ground (arith, lookup-set_count s h j ((e.refcount + 2 ^ 32 - 1) % 2 ^ 32))
]

back : (e : ContentEntry) → IsU32 e.refcount → drop_one (bump e) ≡ e
back e fits =
    let n : ((e.refcount + 1) % 2 ^ 32 + 2 ^ 32 - 1) % 2 ^ 32 ≡ e.refcount = omega arith in
    ap (λ m. recount m e) n

-- Taking a reference and giving it back leaves every entry of the store as it was.
pub release-add_ref :
    (s : ContentStore) (h j : ℕ) (e : ContentEntry)
    → lookup s h ≡ some e
    → IsU32 e.refcount
    → lookup (release (add_ref s h).0 h).0 j ≡ lookup s j
release-add_ref s h j e found fits =
    rw (lookup-release (add_ref s h).0 h j, lookup-add_ref s h j) (ground (arith, back e fits))

none_ne_some {ℓ} : {A : Type ℓ} {a : A} → none ≡ some a → ⊥
none_ne_some h = cc

pub data RefEvent : Type 0 where
  taken given_back : RefEvent

-- A counter without wrap-around: `none` where one below 0 or above 2 ^ 32 - 1 would be needed.
unfoldable pub count_events : ℕ → List RefEvent → Option ℕ
count_events n [] = some n
count_events n (taken ∷ es) =
    let rest = count_events (n + 1) es in if ltb (n + 1) (2 ^ 32) then rest else none
count_events n (given_back ∷ es) =
    let rest = count_events (n - 1) es in if n == 0 then none else rest

unfoldable pub run_events : ContentStore → ℕ → List RefEvent → ContentStore
run_events s h [] = s
run_events s h (taken ∷ es) = run_events (add_ref s h).0 h es
run_events s h (given_back ∷ es) = run_events (release s h).0 h es

-- As long as a counter without wrap-around can follow a sequence of `add_ref` and `release` of
-- one hash, the stored reference count is that counter's, and the entry is otherwise unchanged.
pub run_events-some :
    (es : List RefEvent) (s : ContentStore) (h m : ℕ) (e : ContentEntry)
    → IsU32 e.refcount
    → lookup s h ≡ some e
    → count_events e.refcount es ≡ some m
    → lookup (run_events s h es) h ≡ some (recount m e)
unfolding run_events count_events
run_events-some [] s h m e u found c = ground arith
run_events-some (taken ∷ es) s h m e u found c = elim (Bool-cases (ltb (e.refcount + 1) (2 ^ 32))) [
  | inl fits ↦
      let n : e.refcount + 1 ≡ (e.refcount + 1) % 2 ^ 32 = ground arith in
      run_events-some es (add_ref s h).0 h m (bump e) (omega arith)
        (ground (arith, lookup-add_ref s h h)) (rw n at (rw (fits, count_events) at c))
  | inr over ↦ absurd (none_ne_some (rw (over, count_events) at c))
]
run_events-some (given_back ∷ es) s h m e u found c = elim (Bool-cases (e.refcount == 0)) [
  | inr more ↦
      let n : e.refcount - 1 ≡ (e.refcount + 2 ^ 32 - 1) % 2 ^ 32 = ground arith in
      run_events-some es (release s h).0 h m (drop_one e) (omega arith)
        (ground (arith, lookup-release s h h)) (rw n at (rw (more, count_events) at c))
  | inl under ↦ absurd (none_ne_some (rw (under, count_events) at c))
]

-- A store never holds a hash twice.
abbrev pub IsDistinct : ContentStore → Type 0
IsDistinct [] = Unit {0}
IsDistinct ((h, e) ∷ rest) = (lookup rest h ≡ none) × IsDistinct rest

pub insert-IsDistinct :
    (s : ContentStore) (h : ℕ) (e : ContentEntry) → IsDistinct s → IsDistinct (insert s h e).0
unfolding insert
insert-IsDistinct s h e d = elim (Bool-cases (contains_key s h)) [
  | inl old ↦ rw old d
  | inr new ↦ rw new (ground (arith, contains_key-lookup s h), d)
]

-- In a store without repeated hashes the collection's candidates are exactly the entries whose
-- count is 0.
pub lookup-gc_candidates :
    (s : ContentStore) (h : ℕ)
    → IsDistinct s
    → lookup (gc_candidates s) h
      ≡ elim (lookup s h) [ none ↦ none | some e ↦ if e.refcount == 0 then some e else none ]
unfolding lookup gc_candidates
lookup-gc_candidates [] h d = refl
lookup-gc_candidates ((k, e) ∷ s) h (new, d) =
    ground (arith, lookup-gc_candidates s h d, lookup-gc_candidates s k d)

set_count-IsDistinct : (s : ContentStore) (h n : ℕ) → IsDistinct s → IsDistinct (set_count s h n)
unfolding set_count
set_count-IsDistinct [] h n d = tt
set_count-IsDistinct ((k, e) ∷ s) h n (new, d) = elim (Bool-cases (k == h)) [
  | inl here ↦ rw here (new, d)
  | inr there ↦ rw there (ground (arith, lookup-set_count s h k n), set_count-IsDistinct s h n d)
]

release-IsDistinct : (s : ContentStore) (h : ℕ) → IsDistinct s → IsDistinct (release s h).0
unfolding release
release-IsDistinct s h d = elim (Option-cases (lookup s h)) [
  | inl absent ↦ rw (absent, counted_down) d
  | inr (e, found) ↦ rw (found, counted_down) (set_count-IsDistinct s h _ d)
]

-- Releasing an entry whose count is 0 reports 0, but the stored count becomes 2 ^ 32 - 1, and the
-- entry is no candidate for the collection any more.
pub release_underflow :
    (s : ContentStore) (h : ℕ) (e : ContentEntry)
    → IsDistinct s
    → lookup s h ≡ some e
    → e.refcount ≡ 0
    → ((release s h).1 ≡ ok 0)
      × (lookup (release s h).0 h ≡ some (recount (2 ^ 32 - 1) e))
      × (lookup (gc_candidates s) h ≡ some e)
      × (lookup (gc_candidates (release s h).0) h ≡ none)
unfolding release
release_underflow s h e d found z =
    let after : lookup (release s h).0 h ≡ some (recount (2 ^ 32 - 1) e) =
      ground (arith, lookup-release s h h) in
    (
      ground arith,
      after,
      ground (arith, lookup-gc_candidates s h d),
      ground (arith, after, lookup-gc_candidates (release s h).0 h (release-IsDistinct s h d)),
    )
