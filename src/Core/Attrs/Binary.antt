-- ===== src/Core/Attrs/Binary.antt =====
-- The binary form of the attributes: `Attrs::serialize` and `Attrs::deserialize`. The words of a
-- UTF-8 error are not those of the standard library.
use orthos_i_dart_tpx.Base.{
  ℕ, zero, suc, List, [], ◌∷◌, ◌++◌, Bool, true, false, length, ltb, ◌==◌, not, if◌then◌else◌, min,
  take, get_or,
}
use orthos_i_dart_tpx.Core.Error.{TpxError, Result, ok, err, attr_value_too_large, corrupt_archive}
use orthos_i_dart_tpx.Core.Error as Error
use orthos_i_dart_tpx.Core.Cursor.{Cursor, ◌>>=◌, pure, lift, write_le, read_le, read_exact}
use orthos_i_dart_tpx.Core.AttrType as AttrType
use orthos_i_dart_tpx.Core.AttrType.{AttrTypeId}
use orthos_i_dart_tpx.Core.Utf8.{is_utf8}
use orthos_i_dart_tpx.Core.Attrs.{
  AttrValue, string, int64, float64, bool, bytes, max_attr_value_size, type_id, Attrs, set_attr,
}

-- The order of `String`s is that of their bytes.
unfoldable pub text_le : List ℕ → List ℕ → Bool
text_le [] ys = true
text_le (x ∷ xs) [] = false
text_le (x ∷ xs) (y ∷ ys) = let rest = text_le xs ys in if x == y then rest else ltb x y

unfoldable pub insert_sorted : List ℕ × AttrValue → Attrs → Attrs
insert_sorted (k, v) [] = (k, v) ∷ []
insert_sorted (k, v) ((k', v') ∷ rest) =
    let more = insert_sorted (k, v) rest in
    if text_le k k' then (k, v) ∷ (k', v') ∷ rest else (k', v') ∷ more

-- `keys.sort()`, with the values beside the keys.
unfoldable pub sorted : Attrs → Attrs
unfolding insert_sorted
sorted [] = []
sorted (e ∷ attrs) = insert_sorted e (sorted attrs)

unfoldable pub write_value : AttrValue → List ℕ
write_value (string s) = write_le 2 (length s) ++ s
write_value (int64 i) = write_le 2 8 ++ write_le 8 i
write_value (float64 f) = write_le 2 8 ++ write_le 8 f
write_value (bool b) = write_le 2 1 ++ write_le 1 (if b then 1 else 0)
write_value (bytes b) = write_le 2 (length b) ++ b

unfoldable pub write_attr : List ℕ × AttrValue → List ℕ
write_attr (k, v) =
    let key_len = min (length k) 255 in
    write_le 1 key_len
    ++ (take key_len k ++ (write_le 1 (AttrType.to_u8 (type_id v)) ++ write_value v))

unfoldable pub write_attrs : Attrs → List ℕ
write_attrs [] = []
write_attrs (e ∷ rest) = write_attr e ++ write_attrs rest

unfoldable pub serialize : Attrs → List ℕ
unfolding sorted
serialize attrs = write_attrs (sorted attrs)

unfoldable pub text : List ℕ → Result (List ℕ)
text bs = if is_utf8 bs then ok bs else err (corrupt_archive "invalid utf-8 sequence")

-- A number of 8 bytes, or the complaint.
unfoldable pub word_of : TpxError → List ℕ → Result ℕ
word_of complaint bs =
    if length bs == 8 then (Error.◌>>=◌ (read_le 8 bs) λ r. ok r.0) else err complaint

unfoldable pub parse_value : AttrTypeId → List ℕ → Result AttrValue
unfolding text word_of
parse_value AttrType.string bs = Error.◌>>=◌ (text bs) λ s. ok (string s)
parse_value AttrType.int64 bs =
    Error.◌>>=◌ (word_of (corrupt_archive "Int64 attr len != 8") bs) λ n. ok (int64 n)
parse_value AttrType.float64 bs =
    Error.◌>>=◌ (word_of (corrupt_archive "Float64 attr len != 8") bs) λ n. ok (float64 n)
parse_value AttrType.bool bs =
    if length bs == 1
    then ok (bool (not (get_or bs 0 0 == 0)))
    else err (corrupt_archive "Bool attr len != 1")
parse_value AttrType.bytes bs = ok (bytes bs)

unfoldable pub check_len : ℕ → Result (Unit {0})
check_len val_len =
    if ltb max_attr_value_size val_len then err (attr_value_too_large val_len) else ok tt

-- One round of the loop of `deserialize`.
unfoldable pub read_attr : Cursor (List ℕ × AttrValue)
unfolding check_len parse_value
read_attr = do
  key_len ← read_le 1
  key_bytes ← read_exact key_len
  key ← lift (text key_bytes)
  type_id_u8 ← read_le 1
  type ← lift (AttrType.from_u8 type_id_u8)
  val_len ← read_le 2
  fits ← lift (check_len val_len)
  val_bytes ← read_exact val_len
  value ← lift (parse_value type val_bytes)
  pure (key, value)

-- The loop; a round reads a byte at least, so as many rounds as bytes are enough.
unfoldable pub read_attrs : ℕ → Attrs → List ℕ → Result Attrs
read_attrs fuel attrs [] = ok attrs
read_attrs zero attrs (b ∷ bs) = ok attrs
read_attrs (suc fuel) attrs (b ∷ bs) = Error.◌>>=◌ (read_attr (b ∷ bs)) λ r.
    let (attrs', result) = set_attr attrs r.0.0 r.0.1 in
    Error.◌>>=◌ result λ _. read_attrs fuel attrs' r.1

unfoldable pub deserialize : List ℕ → Result Attrs
unfolding read_attrs
deserialize buf = read_attrs (length buf) [] buf
