-- ===== src/Shard/Retention.antt =====
-- The retention of a `put` as its text says: the `match retain` of `put_with_retention` in
-- crates/tpx-shard/src/engine.rs.
use orthos_i_dart_tpx.Base.{
  ℕ, ◌+◌, ◌-◌, ◌*◌, ◌^◌, List, [], ◌∷◌, drop, ltb, leb, ◌==◌, ◌&&◌, if◌then◌else◌, Option, none,
  some, bytes_eq,
}
use orthos_i_dart_tpx.Index.Toc as Toc
use orthos_i_dart_tpx.Version as Version
use orthos_i_dart_tpx.Version.{RetentionPolicy}

-- `str::parse::<u32>` behind an optional sign.
unfoldable pub parse_digits : ℕ → List ℕ → Option ℕ
parse_digits acc [] = some acc
parse_digits acc (c ∷ cs) =
    let next = acc * 10 + c - 48 in
    let rest = parse_digits next cs in
    if leb 48 c && (leb c 57 && ltb next (2 ^ 32)) then rest else none

unfoldable pub parse_u32 : List ℕ → Option ℕ
unfolding parse_digits
parse_u32 [] = none
parse_u32 (c ∷ []) = parse_digits 0 (c ∷ [])
parse_u32 (c ∷ d ∷ cs) = if c == 43 then parse_digits 0 (d ∷ cs) else parse_digits 0 (c ∷ d ∷ cs)

abbrev pub keep_forever_text : List ℕ
keep_forever_text =
    b'k' ∷ b'e' ∷ b'e' ∷ b'p' ∷ b'_' ∷ b'f' ∷ b'o' ∷ b'r' ∷ b'e' ∷ b'v' ∷ b'e' ∷ b'r' ∷ []

abbrev pub keep_last_n_text : List ℕ
keep_last_n_text =
    b'k' ∷ b'e' ∷ b'e' ∷ b'p' ∷ b'_' ∷ b'l' ∷ b'a' ∷ b's' ∷ b't' ∷ b'_' ∷ b'n' ∷ b':' ∷ []

-- The `match retain`.
unfoldable pub retention_policy : List ℕ → RetentionPolicy
unfolding parse_u32
retention_policy retain =
    if bytes_eq retain keep_forever_text
    then Version.keep_forever
    else if Toc.starts_with retain keep_last_n_text
    then elim (parse_u32 (drop 12 retain)) [
      | some n ↦ Version.keep_last_n n
      | none ↦ Version.keep_last_n 1
    ]
    else Version.keep_latest
