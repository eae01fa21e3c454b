-- ===== src/Core/Attrs.antt =====
-- crates/tpx-core/src/attrs.rs: the attribute values and the map of attributes, as an association
-- list with one entry for a key.
pub mod Lookup
pub mod Binary
pub mod Order
pub mod RoundTrip
use orthos_i_dart_tpx.Base.{
  ℕ, ◌+◌, List, [], ◌∷◌, Bool, true, false, length, ltb, if◌then◌else◌, bytes_eq, Option, none,
  some,
}
use orthos_i_dart_tpx.Core.Error.{Result, ok, err, attr_value_too_large}
use orthos_i_dart_tpx.Core.AttrType as AttrType
use orthos_i_dart_tpx.Core.AttrType.{AttrTypeId}

-- Texts are their UTF-8 bytes; an `i64` and an `f64` are their bit patterns.
pub data AttrValue : Type 0 where
  string : List ℕ → AttrValue
  int64 : ℕ → AttrValue
  float64 : ℕ → AttrValue
  bool : Bool → AttrValue
  bytes : List ℕ → AttrValue

abbrev pub max_attr_value_size : ℕ
max_attr_value_size = 4096

unfoldable pub type_id : AttrValue → AttrTypeId
type_id (string s) = AttrType.string
type_id (int64 i) = AttrType.int64
type_id (float64 f) = AttrType.float64
type_id (bool b) = AttrType.bool
type_id (bytes b) = AttrType.bytes

unfoldable pub val_len : AttrValue → ℕ
val_len (string s) = length s
val_len (int64 i) = 8
val_len (float64 f) = 8
val_len (bool b) = 1
val_len (bytes b) = length b

abbrev pub Attrs : Type 0
Attrs = List (List ℕ × AttrValue)

unfoldable pub put : Attrs → List ℕ → AttrValue → Attrs
put [] key value = (key, value) ∷ []
put ((k, v) ∷ rest) key value =
    let more = put rest key value in if bytes_eq k key then (key, value) ∷ rest else (k, v) ∷ more

-- `Attrs::set`: the attributes afterwards and the result.
unfoldable pub set_attr : Attrs → List ℕ → AttrValue → Attrs × Result (Unit {0})
unfolding put val_len
set_attr attrs key value =
    if ltb max_attr_value_size (val_len value)
    then (attrs, err (attr_value_too_large (val_len value)))
    else (put attrs key value, ok tt)

unfoldable pub get_attr : Attrs → List ℕ → Option AttrValue
get_attr [] key = none
get_attr ((k, v) ∷ rest) key =
    let found = get_attr rest key in if bytes_eq k key then some v else found

unfoldable pub without_attr : Attrs → List ℕ → Attrs
without_attr [] key = []
without_attr ((k, v) ∷ rest) key =
    let more = without_attr rest key in if bytes_eq k key then rest else (k, v) ∷ more

-- `Attrs::remove`: the attributes afterwards and the value that was there.
unfoldable pub remove_attr : Attrs → List ℕ → Attrs × Option AttrValue
unfolding without_attr get_attr
remove_attr attrs key = (without_attr attrs key, get_attr attrs key)
