-- ===== src/Props.antt =====
-- System properties: native/src/core/resetprop/resetprop.cpp. The property area and the platform's
-- property service are not in the repository, and the storage of persistent properties is Rust code
-- (native/src/core/resetprop/persist.rs): the interface `Area` has what the code calls of them.
pub mod Args
pub mod Names
pub mod Laws
mod Examples
use kitsune_ufork.Common.{
  ℕ, Bool, true, false, not, ◌&&◌, ◌||◌, ◌≡◌, Option, none, some, List, [], ◌∷◌, ◌++◌, Text, codes,
  length, leb, ltb, ◌==◌, str_eql, str_starts, if◌then◌else◌,
}
use kitsune_ufork.OrderedMap.{is_some}
use kitsune_ufork.Boot.Fields.{parse_prop_file}

-- An area of properties and the storage: what a name has, whether it is a long property, the calls
-- that write, each with the code that it returns, the context of a name, all that there is, and the
-- persistent values.
pub record Area : Type 1 where
  pub Values : Type 0
  pub lookup : Values → Text → Option Text
  pub is_long : Values → Text → Bool
  pub update : Values → Text → Text → Values × ℕ
  pub add : Values → Text → Text → Values × ℕ
  pub service : Values → Text → Text → Values × ℕ
  pub delete : Values → Text → Bool → Values × ℕ
  pub context : Values → Text → Option Text
  pub each : Values → List (Text × Text)
  pub persist_each : Values → List (Text × Text)
  pub persist_get : Values → Text → Option Text
  pub persist_set : Values → Text → Text → Values × Bool
  pub persist_delete : Values → Text → Values × Bool

-- PropFlags
pub record PropFlags : Type 0 where
  pub skip_svc : Bool
  pub persist : Bool
  pub context : Bool
  pub persist_only : Bool
  pub wait : Bool

abbrev pub no_flags : PropFlags
no_flags = record {
  skip_svc = false;
  persist = false;
  context = false;
  persist_only = false;
  wait = false;
}

unfoldable pub name_char : ℕ → Bool
name_char c =
    (c == b'_' || (c == b'-' || (c == b'@' || c == b':')))
    || ((leb b'a' c && leb c b'z') || ((leb b'A' c && leb c b'Z') || (leb b'0' c && leb c b'9')))

-- The loop of check_legal_property_name; the flag is that the character before was a dot.
unfoldable pub legal_loop : Bool → Text → Bool
unfolding name_char
legal_loop after_dot [] = true
legal_loop after_dot (c ∷ s) =
    let next = legal_loop (c == b'.') s in
    if c == b'.' then not after_dot && next else name_char c && next

unfoldable pub ends_dot : Text → Bool
ends_dot [] = false
ends_dot (c ∷ []) = c == b'.'
ends_dot (c ∷ d ∷ s) = ends_dot (d ∷ s)

unfoldable pub check_legal_property_name : Text → Bool
unfolding legal_loop ends_dot
check_legal_property_name [] = false
check_legal_property_name (c ∷ s) =
    if c == b'.' then false else if ends_dot (c ∷ s) then false else legal_loop false (c ∷ s)

-- PROP_VALUE_MAX of the platform
abbrev prop_value_max : ℕ
prop_value_max = 92

abbrev pub or_blank : Option Text → Text
or_blank none = []
or_blank (some v) = v

abbrev pub is_blank : Text → Bool
is_blank [] = true
is_blank (c ∷ s) = false

abbrev pub is_persist : Text → Bool
is_persist name = str_starts name (codes "persist.")

abbrev pub is_ro : Text → Bool
is_ro name = str_starts name (codes "ro.")

module _ (a : Area) where
  -- A read-only property that is long, or that is to be, is deleted first.
  abbrev pub too_long : a.Values → Text → Text → Bool
  too_long s name value = a.is_long s name || leb prop_value_max (length value)

  unfoldable pub clear_ro : a.Values → Text → Text → a.Values × Bool
  clear_ro s name value =
      let exists = is_some (a.lookup s name) in
      if is_ro name && (exists && too_long s name value)
      then ((a.delete s name false).0, false)
      else (s, exists)

  unfoldable pub write_prop : Bool → Bool → a.Values → Text → Text → a.Values × ℕ
  write_prop skip_svc exists s name value =
      if skip_svc
      then if exists then a.update s name value else a.add s name value
      else a.service s name value

  abbrev pub store_persist : Bool → a.Values × ℕ → Text → Text → a.Values × ℕ
  store_persist wants (s, ret) name value =
      let (s', ok) = a.persist_set s name value in
      if ret == 0 && wants then (s', if ok then 0 else 1) else (s, ret)

  unfoldable pub set_prop : Text → Text → PropFlags → a.Values → a.Values × ℕ
  unfolding check_legal_property_name clear_ro write_prop
  set_prop name value flags s =
      let (s1, exists) = clear_ro s name value in
      let skip_svc = flags.skip_svc || is_ro name in
      let written = write_prop skip_svc exists s1 name value in
      if check_legal_property_name name
      then store_persist (skip_svc && (flags.persist && is_persist name)) written name value
      else (s, 1)

  unfoldable pub get_prop : Text → PropFlags → a.Values → Text
  unfolding check_legal_property_name
  get_prop name flags s =
      let value = if flags.persist_only then [] else or_blank (a.lookup s name) in
      if not (check_legal_property_name name)
      then []
      else if flags.context
      then or_blank (a.context s name)
      else if is_blank value && (flags.persist && is_persist name)
      then or_blank (a.persist_get s name)
      else value

  unfoldable pub delete_prop : Text → PropFlags → a.Values → a.Values × ℕ
  unfolding check_legal_property_name
  delete_prop name flags s =
      let (s1, ret) = a.delete s name true in
      let (s2, gone) = a.persist_delete s1 name in
      if not (check_legal_property_name name)
      then (s, 1)
      else if flags.persist && is_persist name
      then (s2, if gone then 0 else ret)
      else (s1, ret)

  -- The callback of load_file goes on whatever set_prop returns.
  unfoldable pub set_props : List (Text × Text) → PropFlags → a.Values → a.Values
  unfolding set_prop
  set_props [] flags s = s
  set_props ((name, value) ∷ kv) flags s = set_props kv flags (set_prop name value flags s).0

  unfoldable pub load_file : Text → PropFlags → a.Values → a.Values
  unfolding set_props parse_prop_file
  load_file file flags s = set_props (parse_prop_file file) flags s

  -- The functions for the rest of the daemon, which take one flag each.
  unfoldable pub get_prop_impl : Text → Bool → a.Values → Text
  unfolding get_prop
  get_prop_impl name persist s = get_prop name (record no_flags { persist = persist }) s

  unfoldable pub delete_prop_impl : Text → Bool → a.Values → a.Values × ℕ
  unfolding delete_prop
  delete_prop_impl name persist s = delete_prop name (record no_flags { persist = persist }) s

  unfoldable pub set_prop_impl : Text → Text → Bool → a.Values → a.Values × ℕ
  unfolding set_prop
  set_prop_impl name value skip_svc s =
      set_prop name value (record no_flags { skip_svc = skip_svc }) s

  unfoldable pub load_prop_file : Text → Bool → a.Values → a.Values
  unfolding load_file
  load_prop_file file skip_svc s = load_file file (record no_flags { skip_svc = skip_svc }) s

-- wait_prop once the property is there: the values that it has at each reading, and the first one
-- with which the loop ends; `none` waits on.
unfoldable pub wait_loop : Option Text → Text → List Text → Option Text
unfolding str_eql
wait_loop none value [] = none
wait_loop none value (next ∷ more) = some next
wait_loop (some old) value [] = if str_eql value old then none else some value
wait_loop (some old) value (next ∷ more) =
    let rest = wait_loop (some old) next more in if str_eql value old then rest else some value
