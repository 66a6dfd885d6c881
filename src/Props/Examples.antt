-- ===== src/Props/Examples.antt =====
-- The theorems on native/src/core/resetprop/resetprop.cpp at concrete inputs.
use kitsune_ufork.Common.{
  true, false, ◌≡◌, refl, some, [], ◌∷◌, ◌++◌, Text, codes, all, arith, leb, length, str_starts,
  str_eql, str_less, str_eql_iff, if◌then◌else◌,
}
use kitsune_ufork.OrderedMap.{Map, find, put, erase, is_some, text_key}
use kitsune_ufork.OrderedMap.Laws.{find-put, find-erase}
use kitsune_ufork.Props.{get_prop_impl, delete_prop_impl, set_prop_impl, load_prop_file}
use kitsune_ufork.Props.{Area, PropFlags, no_flags, check_legal_property_name, delete_prop}
use kitsune_ufork.Props.Laws.{IsLawful}
use kitsune_ufork.Props.Names.{part, parts_of, check_legal_property_name-part}
use kitsune_ufork.Props.Args.{no_options, parse_flags, Inputs, resetprop_main}
use kitsune_ufork.Props.Args.Switches.{switches, switched, plain_args, parse_flags-switches}
use kitsune_ufork.Props.Args.Whole.{resetprop_main-set-get}

-- The properties and the storage as two maps; the short slots of the area hold 91 bytes.
record Maps : Type 0 where
  pub area : Map Text Text
  pub storage : Map Text Text

abbrev with_value : Maps → Text → Text → Maps
with_value s n v = record s { area = put n v s.area }

abbrev maps : Area
maps = record {
  Values = Maps;
  lookup = λ s n. find n s.area;
  is_long = λ s n. false;
  update = λ s n v. (with_value s n v, if leb 92 (length v) then 1 else 0);
  add = λ s n v. (with_value s n v, 0);
  service = λ s n v. (with_value s n v, 0);
  delete =
      λ s n prune. (record s { area = erase n s.area }, if is_some (find n s.area) then 0 else 1);
  context = λ s n. some (codes "u:object_r:default_prop:s0");
  each = λ s. s.area;
  persist_each = λ s. s.storage;
  persist_get = λ s n. find n s.storage;
  persist_set = λ s n v. (record s { storage = put n v s.storage }, true);
  persist_delete = λ s n. (record s { storage = erase n s.storage }, is_some (find n s.storage));
}

self_eql : (n : Text) → str_eql n n ≡ true
self_eql n = (str_eql_iff n n).1 refl

maps-IsLawful : IsLawful maps
maps-IsLawful = record {
  lookup-update = λ s n v m h. find-put n m v s.area;
  lookup-add = λ s n v m h k. find-put n m v s.area;
  lookup-service = λ s n v m h k. find-put n m v s.area;
  lookup-delete = λ s n prune m. find-erase n m s.area;
  lookup-persist_set = λ s n v m. refl;
  lookup-persist_delete = λ s n m. refl;
  persist_get-persist_set = λ s n v h. ground (arith, find-put n n v s.storage, self_eql n);
  persist_get-persist_delete = λ s n h. ground (arith, find-erase n n s.storage, self_eql n);
}

abbrev some_maps : Maps
some_maps = record {
  area = (codes "persist.sys.x", codes "1") ∷ (codes "ro.debuggable", codes "1") ∷ [];
  storage = [];
}

abbrev direct : PropFlags
direct = record no_flags { skip_svc = true; persist = true }

-- Deleted, and nothing to delete in the storage; refused names.
return_codes :
    (delete_prop maps (codes "persist.sys.x") direct some_maps).1 ≡ 0
    × (delete_prop maps (codes "ro.none") direct some_maps).1 ≡ 1
    × (delete_prop maps (codes "a..b") direct some_maps).1 ≡ 1
unfolding delete_prop str_starts find str_eql
return_codes = (refl, refl, refl)

check_legal_property_name-part_example :
    check_legal_property_name (codes "ro.build.id") ≡ all part (parts_of (codes "ro.build.id"))
check_legal_property_name-part_example = check_legal_property_name-part (codes "ro.build.id")

illegal_names :
    check_legal_property_name (codes ".a") ≡ false
    × check_legal_property_name (codes "a.") ≡ false
    × check_legal_property_name (codes "a..b") ≡ false
    × check_legal_property_name (codes "a b") ≡ false
    × check_legal_property_name (codes "a.B-9_@:") ≡ true
unfolding check_legal_property_name
illegal_names = (refl, refl, refl, refl, refl)

parse_flags-switches_example :
    parse_flags (switches true false true false false true ∷ codes "ro.x" ∷ []) no_options
    ≡ some (switched true true true false false true, codes "ro.x" ∷ [])
unfolding plain_args
parse_flags-switches_example =
    parse_flags-switches true false true false false true (codes "ro.x" ∷ []) refl

abbrev no_file : Inputs
no_file = record { file = []; readings = [] }

abbrev with_x : Maps
with_x = record some_maps { area = some_maps.area ++ ((codes "ro.x", codes "y") ∷ []) }

resetprop_main-set-get_example :
    resetprop_main maps no_file (codes "ro.x" ∷ []) with_x ≡ (with_x, some (codes "y" ∷ [], 0))
unfolding resetprop_main str_starts str_eql str_less find switches
resetprop_main-set-get_example =
    resetprop_main-set-get maps maps-IsLawful true true false false false (codes "ro.x") (codes "y")
      no_file some_maps with_x refl refl refl refl refl

-- A file, a property that is waited for, the values that there are, and a value with no argument.
other_runs :
    (resetprop_main maps
        (record no_file { file = codes "a=1\nb..c=2\nd=3\n" })
        (codes "-nf" ∷ codes "/tmp/x" ∷ [])
        some_maps).0.area
      ≡ (codes "a", codes "1") ∷ (codes "d", codes "3") ∷ some_maps.area
    × resetprop_main maps
        (record no_file { readings = codes "1" ∷ codes "1" ∷ codes "2" ∷ [] })
        (codes "-w" ∷ codes "a" ∷ codes "1" ∷ [])
        some_maps
      ≡ (some_maps, some (codes "2" ∷ [], 0))
    × (resetprop_main maps no_file [] some_maps).1
      ≡ some (codes "[persist.sys.x]: [1]" ∷ codes "[ro.debuggable]: [1]" ∷ [], 0)
    × resetprop_main maps no_file (codes "-d" ∷ []) some_maps ≡ (some_maps, some ([], 1))
unfolding resetprop_main str_starts str_eql find str_less
other_runs = (refl, refl, refl, refl)

abbrev stored_y : Maps
stored_y = record some_maps { storage = (codes "persist.sys.y", codes "7") ∷ [] }

-- The daemon's calls: a persistent property comes from the storage when the area has none.
api_calls :
    get_prop_impl maps (codes "persist.sys.y") true stored_y ≡ codes "7"
    × get_prop_impl maps (codes "persist.sys.y") false stored_y ≡ []
    × (delete_prop_impl maps (codes "persist.sys.y") true stored_y).1 ≡ 0
    × set_prop_impl maps (codes "ro.x") (codes "y") true some_maps ≡ (with_x, 0)
    × load_prop_file maps (codes "ro.x=y\n") true some_maps ≡ with_x
unfolding get_prop_impl delete_prop_impl set_prop_impl load_prop_file str_starts str_eql find
    str_less put
api_calls = (refl, refl, refl, refl, refl)
