-- ===== src/Core/Attrs/RoundTrip.antt =====
-- Attributes come back from their binary form.
use orthos_i_dart_tpx.Base.{
  ℕ, zero, suc, ◌≤◌, ◌<◌, ◌≡◌, ◌∙◌, refl, arith, ap, sym, List, [], ◌∷◌, ◌++◌, true, false, length,
  ◌==◌, if◌then◌else◌, min, take, append_assoc, append-nil, take_all, IsU64, length-append, All,
}
use orthos_i_dart_tpx.Core.Error.{Result, ok, err}
use orthos_i_dart_tpx.Core.Error as Error
use orthos_i_dart_tpx.Core.Cursor.{
  Cursor, ◌>>=◌, lift, write_le, length-write_le, read_le-write_le, read_le_then, read_exact_then,
}
use orthos_i_dart_tpx.Core.AttrType as AttrType
use orthos_i_dart_tpx.Core.Utf8.{is_utf8}
use orthos_i_dart_tpx.Core.Attrs.{
  AttrValue, string, int64, float64, bool, bytes, type_id, Attrs, val_len, put, set_attr, get_attr,
}
use orthos_i_dart_tpx.Core.Attrs.Binary.{
  sorted, write_value, write_attr, write_attrs, serialize, text, word_of, parse_value, read_attr,
  read_attrs, deserialize, check_len,
}
use orthos_i_dart_tpx.Core.Attrs.Order.{
  IsDistinct, put-fresh, front-absent, sorted-All, sorted-IsDistinct, get_attr-sorted,
}

-- Values that Rust's types allow.
abbrev pub IsValue : AttrValue → Type 0
IsValue (string s) = is_utf8 s ≡ true
IsValue (int64 i) = IsU64 i
IsValue (float64 f) = IsU64 f
IsValue (bool b) = Unit
IsValue (bytes b) = Unit

-- The payload behind the length of a value.
abbrev payload : AttrValue → List ℕ
payload (string s) = s
payload (int64 i) = write_le 8 i
payload (float64 f) = write_le 8 f
payload (bool b) = write_le 1 (if b then 1 else 0)
payload (bytes b) = b

write_value_lem : (v : AttrValue) → write_value v ≡ write_le 2 (val_len v) ++ payload v
unfolding write_value val_len
write_value_lem (string s) = refl
write_value_lem (int64 i) = refl
write_value_lem (float64 f) = refl
write_value_lem (bool b) = refl
write_value_lem (bytes b) = refl

length-payload : (v : AttrValue) → length (payload v) ≡ val_len v
unfolding val_len
length-payload (string s) = refl
length-payload (int64 i) = length-write_le 8 i
length-payload (float64 f) = length-write_le 8 f
length-payload (bool b) = length-write_le 1 (if b then 1 else 0)
length-payload (bytes b) = refl

word_back : (e : Error.TpxError) (n : ℕ) → IsU64 n → word_of e (write_le 8 n) ≡ ok n
unfolding word_of
word_back e n h =
    let size : (length (write_le 8 n) == 8) ≡ true = ground (arith, length-write_le 8 n) in
    rw (size, sym (append-nil (write_le 8 n)), read_le-write_le 8 n [] h) refl

parse-payload : (v : AttrValue) → IsValue v → parse_value (type_id v) (payload v) ≡ ok v
unfolding parse_value type_id text write_le
parse-payload (string s) h = rw h refl
parse-payload (int64 i) h = rw (word_back _ i h) refl
parse-payload (float64 f) h = rw (word_back _ f h) refl
parse-payload (bool true) h = refl
parse-payload (bool false) h = refl
parse-payload (bytes b) h = refl

-- An entry that the format can hold.
pub record IsEntry (e : List ℕ × AttrValue) : Type 0 where
  pub key_len : length e.0 ≤ 255
  pub key_text : is_utf8 e.0 ≡ true
  pub value_len : val_len e.1 ≤ 4096
  pub value_fits : IsValue e.1

lift_then :
    {A B : Type 0} (r : Result A) (a : A) (f : A → Cursor B) (bs : List ℕ)
    → r ≡ ok a
    → (lift r >>= f) bs ≡ f a bs
lift_then r a f bs e = rw e refl

pub text_lem : (s : List ℕ) → is_utf8 s ≡ true → text s ≡ ok s
unfolding text
text_lem s h = rw h refl

check_len_lem : (n : ℕ) → n ≤ 4096 → check_len n ≡ ok tt
unfolding check_len
check_len_lem n h = ground arith

write_attr_lem :
    (k : List ℕ) (v : AttrValue) (rest : List ℕ)
    → length k ≤ 255
    → write_attr (k, v) ++ rest
      ≡ write_le 1 (length k)
        ++ (k
            ++ (write_le 1 (AttrType.to_u8 (type_id v))
                ++ (write_le 2 (val_len v) ++ (payload v ++ rest))))
unfolding write_attr
write_attr_lem k v rest h =
    let whole : min (length k) 255 ≡ length k = omega arith in
    rw (whole, take_all (length k) k (omega arith), write_value_lem v) (simp append_assoc)

read_attr-write_attr :
    (e : List ℕ × AttrValue) (rest : List ℕ)
    → IsEntry e
    → read_attr (write_attr e ++ rest) ≡ ok (e, rest)
unfolding read_attr
read_attr-write_attr (k, v) rest h = rw (write_attr_lem k v rest h.key_len) (
    read_le_then _ 1 (length k) _ (omega (arith, h.key_len))
    ∙ read_exact_then _ (length k) k _ refl
    ∙ lift_then _ k _ _ (text_lem k h.key_text)
    ∙ read_le_then _ 1 (AttrType.to_u8 (type_id v)) _ (AttrType.to_u8-lt (type_id v))
    ∙ lift_then _ (type_id v) _ _ (AttrType.from_u8-to_u8 (type_id v))
    ∙ read_le_then _ 2 (val_len v) _ (omega (arith, h.value_len))
    ∙ lift_then _ tt _ _ (check_len_lem (val_len v) h.value_len)
    ∙ read_exact_then _ (val_len v) (payload v) _ (length-payload v)
    ∙ lift_then _ v _ _ (parse-payload v h.value_fits))

pub set_attr_small :
    (attrs : Attrs) (k : List ℕ) (v : AttrValue)
    → val_len v ≤ 4096
    → ((set_attr attrs k v).0 ≡ put attrs k v) × ((set_attr attrs k v).1 ≡ ok tt)
unfolding set_attr
set_attr_small attrs k v small = (ground arith, ground arith)

read_attrs_step :
    (fuel : ℕ) (attrs : Attrs) (bs rest : List ℕ) (e : List ℕ × AttrValue)
    → 0 < length bs
    → read_attr bs ≡ ok (e, rest)
    → val_len e.1 ≤ 4096
    → read_attrs (suc fuel) attrs bs ≡ read_attrs fuel (put attrs e.0 e.1) rest
unfolding read_attrs
read_attrs_step fuel attrs [] rest e some_bytes h small = absurd (omega arith)
read_attrs_step fuel attrs (b ∷ bs) rest (k, v) some_bytes h small = rw h (
    kept (set_attr attrs k v) (set_attr_small attrs k v small).0 (set_attr_small attrs k v small).1)
  where
    kept :
        (p : Attrs × Result (Unit {0}))
        → p.0 ≡ put attrs k v
        → p.1 ≡ ok tt
        → Error.◌>>=◌ p.1 (λ _. read_attrs fuel p.0 rest) ≡ read_attrs fuel (put attrs k v) rest
    kept p same fine = rw (fine, same) refl

write_attr-nonempty : (e : List ℕ × AttrValue) → 0 < length (write_attr e)
unfolding write_attr
write_attr-nonempty (k, v) = ground (
  arith,
  length-append (write_le 1 (min (length k) 255))
      (take (min (length k) 255) k ++ (write_le 1 (AttrType.to_u8 (type_id v)) ++ write_value v)),
  length-write_le 1 (min (length k) 255),
)

read_attrs-write_attrs :
    (fuel : ℕ) (front attrs : Attrs)
    → All IsEntry attrs
    → IsDistinct (front ++ attrs)
    → length (write_attrs attrs) ≤ fuel
    → read_attrs fuel front (write_attrs attrs) ≡ ok (front ++ attrs)
unfolding write_attrs read_attrs
read_attrs-write_attrs fuel front [] all d enough = ap ok (sym (append-nil front))
read_attrs-write_attrs zero front (e ∷ attrs) all d enough =
    absurd (omega (arith, length-append (write_attr e) (write_attrs attrs), write_attr-nonempty e))
read_attrs-write_attrs (suc fuel) front ((k, v) ∷ attrs) all d enough =
    let size = length-append (write_attr (k, v)) (write_attrs attrs) in
    let some_bytes = write_attr-nonempty (k, v) in
    let step =
      read_attrs_step fuel front _ _ (k, v) (omega arith)
        (read_attr-write_attr (k, v) (write_attrs attrs) all.0) all.0.value_len in
    let joined = append_assoc front ((k, v) ∷ []) attrs in
    let rest =
      read_attrs-write_attrs fuel (front ++ ((k, v) ∷ [])) attrs all.1 (rw joined d)
        (omega arith) in
    step ∙ rw (put-fresh front k v (front-absent front k v attrs d)) rest ∙ ap ok joined

-- Attributes of distinct keys of at most 255 bytes, with values of at most 4096 bytes that Rust's
-- types allow, come back from `serialize` as the same map: `deserialize` succeeds, no key is there
-- twice, and `get` finds under every key what it found before.
pub deserialize_attrs-serialize :
    (attrs : Attrs)
    → All IsEntry attrs
    → IsDistinct attrs
    → (deserialize (serialize attrs) ≡ ok (sorted attrs))
      × IsDistinct (sorted attrs)
      × ((key : List ℕ) → get_attr (sorted attrs) key ≡ get_attr attrs key)
unfolding serialize deserialize
deserialize_attrs-serialize attrs all d = (
  read_attrs-write_attrs _ [] (sorted attrs) (sorted-All IsEntry attrs all)
      (sorted-IsDistinct attrs d) (omega arith),
  sorted-IsDistinct attrs d,
  λ key. get_attr-sorted attrs key d,
)
