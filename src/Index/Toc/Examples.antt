-- ===== src/Index/Toc/Examples.antt =====
-- The theorems on the table of contents and the range filter at concrete keys.
use mathlib.Core.List.{reverse, reverse_perm}
use orthos_i_dart_tpx.Base.{
  ℕ, ◌+◌, ◌≡◌, refl, arith, List, [], ◌∷◌, ◌++◌, All, bytes_eq, if◌then◌else◌, none, some, true,
}
use orthos_i_dart_tpx.Core.Error.{ok}
use orthos_i_dart_tpx.Core.DType as DType
use orthos_i_dart_tpx.Core.Utf8.{is_utf8}
use orthos_i_dart_tpx.Core.Attrs as Attrs
use orthos_i_dart_tpx.Core.Attrs.Binary as AttrsBinary
use orthos_i_dart_tpx.Core.Cursor.{write_le}
use orthos_i_dart_tpx.Index.Surf as Surf
use orthos_i_dart_tpx.Index.Surf.{range_lookup}
use orthos_i_dart_tpx.Index.Surf.Sound.{InRange, range_lookup_iff}
use orthos_i_dart_tpx.Base.{◌↔◌}
use orthos_i_dart_tpx.Core.Attrs.Binary.{text_le}
use orthos_i_dart_tpx.Index.Toc.{TocEntry, build, add_entry, lookup, lookup_prefix, starts_with}
use orthos_i_dart_tpx.Index.Toc.Binary.{serialize, deserialize}
use orthos_i_dart_tpx.Index.Toc.RoundTrip.{
  IsTocEntry, IsIteration, restored, SameEntries, deserialize_toc-serialize,
}
use orthos_i_dart_tpx.Index.Toc.Lookup.{IsToc, Apart, latest, live, lookup_lem}
use orthos_i_dart_tpx.Index.Toc.Updates.{build-IsToc, lookup-add_entry}
use orthos_i_dart_tpx.Index.Toc.Prefix.{NoKeyTwice, first, lookup_prefix_lem}

-- A hash that tells the keys below apart.
abbrev sum_hash : List ℕ → ℕ
sum_hash [] = 0
sum_hash (b ∷ bytes) = b + sum_hash bytes

abbrev first_entry : TocEntry
first_entry = record {
  key_hash = 97;
  key = 97 ∷ [];
  dtype_id = DType.int32;
  shape = 2 ∷ 3 ∷ [];
  attrs = (121 ∷ [], Attrs.bool true) ∷ (120 ∷ [], Attrs.bool true) ∷ [];
  chunk_refs = record { shard_id = 1; chunk_offset = 4096; chunk_len = 512 } ∷ [];
  tombstone = 0;
}

abbrev second_entry : TocEntry
second_entry = record {
  key_hash = 195;
  key = 97 ∷ 98 ∷ [];
  dtype_id = DType.uint8;
  shape = [];
  attrs = [];
  chunk_refs = [];
  tombstone = 1;
}

abbrev pub sample_entries : List TocEntry
sample_entries = first_entry ∷ second_entry ∷ []

pub sample_entries-All : All IsTocEntry sample_entries
unfolding is_utf8 Attrs.val_len Attrs.get_attr AttrsBinary.serialize write_le
    AttrsBinary.write_attrs AttrsBinary.write_attr AttrsBinary.write_value bytes_eq text_le
sample_entries-All = (
  record {
    hash_fits = omega arith;
    key_len = omega arith;
    key_text = refl;
    rank = omega arith;
    dims = (omega arith, (omega arith, tt));
    each_attr = (
      record { key_len = omega arith; key_text = refl; value_len = omega arith; value_fits = tt },
      (
        record { key_len = omega arith; key_text = refl; value_len = omega arith; value_fits = tt },
        tt,
      ),
    );
    distinct = (refl, (refl, tt));
    attrs_fit = omega arith;
    ref_count = omega arith;
    refs = (
      record { shard_fits = omega arith; offset_fits = omega arith; len_fits = omega arith },
      tt,
    );
    mark_fits = omega arith;
  },
  (
    record {
      hash_fits = omega arith;
      key_len = omega arith;
      key_text = refl;
      rank = omega arith;
      dims = tt;
      each_attr = tt;
      distinct = tt;
      attrs_fit = omega arith;
      ref_count = omega arith;
      refs = tt;
      mark_fits = omega arith;
    },
    tt,
  ),
)

-- Maps that give their last attribute first.
abbrev pub last_first : ℕ → Attrs.Attrs → Attrs.Attrs
last_first n attrs = reverse attrs

pub last_first-IsIteration : IsIteration last_first
last_first-IsIteration n attrs = reverse_perm attrs

deserialize_toc-serialize_example :
    (deserialize last_first (serialize (build sample_entries) ++ (0 ∷ []))
      ≡ ok (build (restored last_first sample_entries)))
    × SameEntries (restored last_first sample_entries) sample_entries
unfolding build
deserialize_toc-serialize_example =
    deserialize_toc-serialize last_first (build sample_entries) (0 ∷ []) last_first-IsIteration
      sample_entries-All (omega arith)

build-sample-IsToc : IsToc sum_hash (build sample_entries)
build-sample-IsToc = build-IsToc sum_hash sample_entries (omega arith) (refl, (refl, tt))

-- The hash of "a" is that of no other key in the table.
sample-Apart : Apart sum_hash (97 ∷ []) sample_entries
sample-Apart = ((λ h. refl), ((λ h. absurd (omega arith)), tt))

lookup_lem_example :
    lookup sum_hash (build sample_entries) (97 ∷ [])
    ≡ live (latest (97 ∷ []) (build sample_entries).entries)
unfolding build
lookup_lem_example =
    lookup_lem sum_hash (build sample_entries) (97 ∷ []) build-sample-IsToc sample-Apart

abbrev third_entry : TocEntry
third_entry = record first_entry { tombstone = 0; chunk_refs = []; key = 98 ∷ []; key_hash = 98 }

lookup-add_entry_example :
    IsToc sum_hash (add_entry (build sample_entries) third_entry)
    × (lookup sum_hash (add_entry (build sample_entries) third_entry) (98 ∷ []) ≡ (
        if bytes_eq (98 ∷ []) (98 ∷ [])
        then live (some third_entry)
        else lookup sum_hash (build sample_entries) (98 ∷ [])))
unfolding build add_entry
lookup-add_entry_example =
    lookup-add_entry sum_hash (build sample_entries) third_entry (98 ∷ []) build-sample-IsToc
      (omega arith) refl
      ((λ h. absurd (omega arith)), ((λ h. absurd (omega arith)), ((λ h. refl), tt)))

lookup_prefix_lem_example :
    NoKeyTwice (lookup_prefix (build sample_entries) (97 ∷ []))
    × ((key : List ℕ)
        → first key (lookup_prefix (build sample_entries) (97 ∷ [])) ≡ (
            if starts_with key (97 ∷ [])
            then live (latest key (build sample_entries).entries)
            else none))
lookup_prefix_lem_example = lookup_prefix_lem (build sample_entries) (97 ∷ [])

range_lookup_iff_example :
    (range_lookup (Surf.build ((98 ∷ []) ∷ (97 ∷ 99 ∷ []) ∷ [])) (97 ∷ []) (97 ∷ 122 ∷ []) ≡ true)
    ↔ InRange ((98 ∷ []) ∷ (97 ∷ 99 ∷ []) ∷ []) (97 ∷ []) (97 ∷ 122 ∷ [])
unfolding text_le
range_lookup_iff_example =
    range_lookup_iff ((98 ∷ []) ∷ (97 ∷ 99 ∷ []) ∷ []) (97 ∷ []) (97 ∷ 122 ∷ []) refl
