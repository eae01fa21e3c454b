-- ===== src/Version/Retention.antt =====
-- What `append` keeps, evicts and numbers.
use orthos_i_dart_tpx.Base.{
  ℕ, zero, suc, ◌+◌, ◌-◌, ◌%◌, ◌^◌, ◌≤◌, ◌<◌, ◌≡◌, ◌∙◌, min, max, refl, arith, List, [], ◌∷◌, ◌++◌,
  length, ltb, take, map, some, length-append, length-drop, ap, sym, ap₂, Bool-cases, inl, inr,
  take-append-drop,
}
use native.Mathlib.Nat.{zero-add}
use orthos_i_dart_tpx.Core.DType.{DTypeId}
use orthos_i_dart_tpx.Core.Attrs.{AttrValue}
use orthos_i_dart_tpx.Version.{
  RetentionPolicy, keep_latest, keep_last_n, keep_forever, VersionEntry, VersionChain, last, latest,
  list_versions, hashes, drain, apply_retention, retain, next_id, append, new,
}

-- How many versions a policy keeps of a list of the given length.
abbrev pub quota : RetentionPolicy → ℕ → ℕ
quota keep_latest n = min 1 n
quota (keep_last_n k) n = min (max k 1) n
quota keep_forever n = n

-- What a policy drops of a chain, and what it keeps of it.
pub record IsSplit (c kept : VersionChain) (evicted : List ℕ) (size : ℕ) : Type 0 where
  pub dropped : List VersionEntry
  pub parts : c.versions ≡ dropped ++ kept.versions
  pub released : evicted ≡ hashes dropped
  pub kept_size : length kept.versions ≡ size
  pub same_key : kept.key ≡ c.key
  pub same_policy : kept.retention ≡ c.retention

drain-IsSplit :
    (limit : ℕ) (c : VersionChain)
    → IsSplit c (drain limit c).0 (drain limit c).1 (min limit (length c.versions))
unfolding drain
drain-IsSplit limit c = elim (Bool-cases (ltb limit (length c.versions))) [
  | inl more ↦ rw more (record {
    dropped = take (length c.versions - limit) c.versions;
    parts = sym (take-append-drop (length c.versions - limit) c.versions);
    released = refl;
    kept_size = ground (arith, length-drop (length c.versions - limit) c.versions);
    same_key = refl;
    same_policy = refl;
  })
  | inr few ↦ rw few (record {
    dropped = [];
    parts = refl;
    released = refl;
    kept_size = ground arith;
    same_key = refl;
    same_policy = refl;
  })
]

retain-IsSplit :
    (p : RetentionPolicy) (c : VersionChain)
    → IsSplit c (retain p c).0 (retain p c).1 (quota p (length c.versions))
unfolding retain
retain-IsSplit keep_latest c = drain-IsSplit 1 c
retain-IsSplit (keep_last_n n) c = drain-IsSplit (max n 1) c
retain-IsSplit keep_forever c = record {
  dropped = [];
  parts = refl;
  released = refl;
  kept_size = refl;
  same_key = refl;
  same_policy = refl;
}

-- One more than the last id, wrapped around at 2 ^ 32; 0 where there is none.
abbrev pub id_after : List VersionEntry → ℕ
id_after [] = 0
id_after (v ∷ []) = (v.version_id + 1) % 2 ^ 32
id_after (v ∷ w ∷ vs) = id_after (w ∷ vs)

next_id-last : (vs : List VersionEntry) → next_id (last vs) ≡ id_after vs
unfolding next_id last
next_id-last [] = refl
next_id-last (v ∷ []) = refl
next_id-last (v ∷ w ∷ vs) = next_id-last (w ∷ vs)

module _ (now : ℕ) (dtype_id : DTypeId) (shape : List ℕ) (attrs : List (List ℕ × AttrValue))
    (chunk_refs : List ℕ) (c : VersionChain) where
  -- The entry with the arguments of `append`, under the id that follows the last one.
  abbrev pub pushed : VersionEntry
  pushed = record {
    version_id = id_after c.versions;
    timestamp = now;
    dtype_id = dtype_id;
    shape = shape;
    attrs = attrs;
    chunk_refs = chunk_refs;
  }

  abbrev pub grown : VersionChain
  grown = record c { versions = c.versions ++ (pushed ∷ []) }

  -- `append` pushes one entry whose id is one more than the last one's, modulo 2 ^ 32, or 0 in an
  -- empty chain, and returns that id. It splits what is then there into the oldest entries, whose
  -- chunk hashes are returned as evicted, in order, and the newest ones, which stay: as many as the
  -- policy allows. Key and policy stay as they are.
  pub append-IsSplit :
      let r = append now dtype_id shape attrs chunk_refs c in
      IsSplit grown r.0 r.2 (quota c.retention (length c.versions + 1))
      × (r.1 ≡ id_after c.versions)
  unfolding append apply_retention latest
  append-IsSplit =
      let e : length (c.versions ++ (pushed ∷ [])) ≡ length c.versions + 1 =
        length-append c.versions (pushed ∷ []) in
      rw (next_id-last c.versions) (rw e at (retain-IsSplit c.retention grown), refl)

-- The ids of a run of entries count up by one from `first`.
abbrev pub Counts : ℕ → List VersionEntry → Type 0
Counts first [] = Unit {0}
Counts first (v ∷ vs) = (v.version_id ≡ first) × Counts (suc first) vs

Counts-snoc :
    (first : ℕ) (vs : List VersionEntry) (v : VersionEntry)
    → Counts first vs
    → v.version_id ≡ first + length vs
    → Counts first (vs ++ (v ∷ []))
Counts-snoc first [] v h e = (omega arith, tt)
Counts-snoc first (w ∷ vs) v (hw, h) e = (hw, Counts-snoc (suc first) vs v h (omega arith))

Counts-suffix :
    (first : ℕ) (us vs : List VersionEntry)
    → Counts first (us ++ vs)
    → Counts (first + length us) vs
Counts-suffix first [] vs h = let e : first + 0 ≡ first = omega arith in rw e h
Counts-suffix first (u ∷ us) vs (hu, h) =
    let e : first + suc (length us) ≡ suc first + length us = omega arith in
    rw e (Counts-suffix (suc first) us vs h)

last-Counts :
    (first : ℕ) (v : VersionEntry) (vs : List VersionEntry)
    → Counts first (v ∷ vs)
    → (w : VersionEntry) × (last (v ∷ vs) ≡ some w) × (w.version_id ≡ first + length vs)
unfolding last
last-Counts first v [] (h, t) = (v, refl, omega arith)
last-Counts first v (w ∷ vs) (h, t) =
    let (u, e, id) = last-Counts (suc first) w vs t in (u, e, omega arith)

-- Ids as a range of `count` numbers from `first`.
abbrev pub range : ℕ → ℕ → List ℕ
range first zero = []
range first (suc count) = first ∷ range (suc first) count

Counts-range :
    (first : ℕ) (vs : List VersionEntry)
    → Counts first vs
    → map (λ (v : VersionEntry). v.version_id) vs ≡ range first (length vs)
Counts-range first [] h = refl
Counts-range first (v ∷ vs) (e, h) = ap₂ ◌∷◌ e (Counts-range (suc first) vs h)

-- A chain that has been given `n` versions in all: those that it still has are the last ones.
pub record HasRun (n : ℕ) (c : VersionChain) : Type 0 where
  pub size : length c.versions ≡ quota c.retention n
  pub ids : Counts (n - length c.versions) c.versions

quota_laws :
    (p : RetentionPolicy) (n : ℕ)
    → (quota p n ≤ n) × (quota p n ≡ 0 → n ≡ 0) × (quota p (quota p n + 1) ≡ quota p (suc n))
quota_laws keep_latest n = omega arith
quota_laws (keep_last_n k) n = omega arith
quota_laws keep_forever n = omega arith

next_of :
    (n : ℕ) (vs : List VersionEntry)
    → Counts (n - length vs) vs
    → length vs ≤ n
    → (length vs ≡ 0 → n ≡ 0)
    → n < 2 ^ 32
    → next_id (last vs) ≡ n
unfolding next_id last
next_of n [] h le pos lt = sym (pos refl)
next_of n (v ∷ vs) h le pos lt = let (w, e, id) = last-Counts _ v vs h in rw e (omega arith)

next_id-HasRun : (n : ℕ) (c : VersionChain) → n < 2 ^ 32 → HasRun n c → next_id (latest c) ≡ n
unfolding latest last
next_id-HasRun n c lt h =
    let (le, pos, again) = quota_laws c.retention n in
    next_of n c.versions h.ids (omega arith) (λ z. pos (omega arith)) lt

append-HasRun :
    (now : ℕ) (dtype_id : DTypeId) (shape : List ℕ) (attrs : List (List ℕ × AttrValue))
    (chunk_refs : List ℕ) (n : ℕ) (c : VersionChain)
    → n < 2 ^ 32
    → HasRun n c
    → HasRun (suc n) (append now dtype_id shape attrs chunk_refs c).0
append-HasRun now dtype_id shape attrs chunk_refs n c lt h =
    let (split, same_id) = append-IsSplit now dtype_id shape attrs chunk_refs c in
    let (le, pos, again) = quota_laws c.retention n in
    let kept = (append now dtype_id shape attrs chunk_refs c).0 in
    let new_id : id_after c.versions ≡ n =
      sym (next_id-last c.versions) ∙ (unfold latest in next_id-HasRun n c lt h) in
    let all =
      Counts-snoc (n - length c.versions) c.versions (pushed now dtype_id shape attrs chunk_refs c)
        h.ids (omega arith) in
    let tail =
      Counts-suffix (n - length c.versions) split.dropped kept.versions (rw split.parts at all) in
    let total : length c.versions + 1 ≡ length split.dropped + length kept.versions = omega (
      arith,
      ap length split.parts,
      length-append c.versions (pushed now dtype_id shape attrs chunk_refs c ∷ []),
      length-append split.dropped kept.versions,
    ) in
    let start : n - length c.versions + length split.dropped ≡ suc n - length kept.versions =
      omega arith in
    let sized : length kept.versions ≡ quota kept.retention (suc n) =
      split.kept_size
      ∙ ap (λ m. quota c.retention (m + 1)) h.size
      ∙ again
      ∙ ap (λ p. quota p (suc n)) (sym split.same_policy) in
    record { size = sized; ids = rw start at tail }

quota_zero : (p : RetentionPolicy) → 0 ≡ quota p 0
quota_zero keep_latest = omega arith
quota_zero (keep_last_n n) = omega arith
quota_zero keep_forever = refl

-- A put to the chain: the clock, the type, the shape, the attributes and the chunk hashes.
pub record Put : Type 0 where
  pub now : ℕ
  pub dtype_id : DTypeId
  pub shape : List ℕ
  pub attrs : List (List ℕ × AttrValue)
  pub chunk_refs : List ℕ

abbrev pub append_all : List Put → VersionChain → VersionChain
append_all [] c = c
append_all (x ∷ xs) c = append_all xs (append x.now x.dtype_id x.shape x.attrs x.chunk_refs c).0

append_all-HasRun :
    (xs : List Put) (n : ℕ) (c : VersionChain)
    → n + length xs ≤ 2 ^ 32
    → HasRun n c
    → HasRun (n + length xs) (append_all xs c)
append_all-HasRun [] n c le h = let e : n + 0 ≡ n = omega arith in rw e h
append_all-HasRun (x ∷ xs) n c le h =
    let e : n + suc (length xs) ≡ suc n + length xs = omega arith in
    rw e (
      append_all-HasRun xs (suc n) _ (omega arith)
        (append-HasRun x.now x.dtype_id x.shape x.attrs x.chunk_refs n c (omega arith) h))

append-retention :
    (x : Put) (c : VersionChain)
    → (append x.now x.dtype_id x.shape x.attrs x.chunk_refs c).0.retention ≡ c.retention
append-retention x c =
    (append-IsSplit x.now x.dtype_id x.shape x.attrs x.chunk_refs c).0.same_policy

append_all-retention :
    (xs : List Put) (c : VersionChain) → (append_all xs c).retention ≡ c.retention
append_all-retention [] c = refl
append_all-retention (x ∷ xs) c = append_all-retention xs _ ∙ append-retention x c

-- A new chain that is given `n` versions, at most 2 ^ 32, lists the ids of the latest ones, as
-- many as the policy allows, ending in `n - 1`.
pub list_versions-append_all :
    (key : List ℕ) (p : RetentionPolicy) (xs : List Put)
    → length xs ≤ 2 ^ 32
    → list_versions (append_all xs (new key p))
      ≡ range (length xs - quota p (length xs)) (quota p (length xs))
unfolding list_versions
list_versions-append_all key p xs le =
    let start : HasRun 0 (new key p) = unfold new in (record { size = quota_zero p; ids = tt }) in
    let run = append_all-HasRun xs 0 (new key p) (omega arith) start in
    let same : (append_all xs (new key p)).retention ≡ p =
      append_all-retention xs _ ∙ (unfold new in refl) in
    let size : length (append_all xs (new key p)).versions ≡ quota p (length xs) =
      run.size ∙ ap (λ q. quota q (0 + length xs)) same ∙ ap (quota p) (zero-add (length xs)) in
    let first : 0 + length xs - length (append_all xs (new key p)).versions
        ≡ length xs - quota p (length xs) =
      omega arith in
    Counts-range _ _ run.ids ∙ ap₂ range first size
