-- ===== src/Props/Laws.antt =====
-- What native/src/core/resetprop/resetprop.cpp reads back after it has written or deleted a
-- property, over every area that keeps what the platform and the storage document.
use kitsune_ufork.Common.{
  ℕ, Bool, true, false, ◌&&◌, ◌||◌, ◌≡◌, refl, none, some, [], Text, codes, str_eql, str_eql_iff,
  str_starts, if◌then◌else◌, arith,
}
use kitsune_ufork.OrderedMap.{is_some}
use kitsune_ufork.Props.{
  Area, PropFlags, no_flags, check_legal_property_name, clear_ro, write_prop, store_persist,
  set_prop, get_prop, delete_prop, is_persist, is_ro,
}

-- A control property is a command to the service, which keeps no value of it.
abbrev pub is_control : Text → Bool
is_control name = str_starts name (codes "ctl.") || str_eql name (codes "sys.powerctl")

-- A call that returns 0 has done its work: `update` on a property that exists, `add` on one that
-- does not. The storage and the area do not touch each other.
pub record IsLawful (a : Area) : Type 0 where
  pub lookup-update :
      (s : a.Values) (n v m : Text)
      → (a.update s n v).1 ≡ 0
      → a.lookup (a.update s n v).0 m ≡ (if str_eql n m then some v else a.lookup s m)
  pub lookup-add :
      (s : a.Values) (n v m : Text)
      → is_some (a.lookup s n) ≡ false
      → (a.add s n v).1 ≡ 0
      → a.lookup (a.add s n v).0 m ≡ (if str_eql n m then some v else a.lookup s m)
  pub lookup-service :
      (s : a.Values) (n v m : Text)
      → is_control n ≡ false
      → (a.service s n v).1 ≡ 0
      → a.lookup (a.service s n v).0 m ≡ (if str_eql n m then some v else a.lookup s m)
  pub lookup-delete :
      (s : a.Values) (n : Text) (prune : Bool) (m : Text)
      → a.lookup (a.delete s n prune).0 m ≡ (if str_eql n m then none else a.lookup s m)
  pub lookup-persist_set :
      (s : a.Values) (n v m : Text) → a.lookup (a.persist_set s n v).0 m ≡ a.lookup s m
  pub lookup-persist_delete :
      (s : a.Values) (n m : Text) → a.lookup (a.persist_delete s n).0 m ≡ a.lookup s m
  pub persist_get-persist_set :
      (s : a.Values) (n v : Text)
      → (a.persist_set s n v).1 ≡ true
      → a.persist_get (a.persist_set s n v).0 n ≡ some v
  pub persist_get-persist_delete :
      (s : a.Values) (n : Text)
      → (a.persist_delete s n).1 ≡ true
      → a.persist_get (a.persist_delete s n).0 n ≡ none

str_eql_refl : (n : Text) → str_eql n n ≡ true
str_eql_refl n = (str_eql_iff n n).1 refl

module _ (a : Area) (l : IsLawful a) where
  -- After the read-only property is cleared, the area differs at most there, where the flag tells
  -- what it has.
  lookup-clear_ro :
      (s : a.Values) (name value m : Text)
      → str_eql name m ≡ false
      → a.lookup (clear_ro a s name value).0 m ≡ a.lookup s m
  unfolding clear_ro
  lookup-clear_ro s name value m h = ground (arith, h, l.lookup-delete s name false m)

  clear_ro_exists :
      (s : a.Values) (name value : Text)
      → is_some (a.lookup (clear_ro a s name value).0 name) ≡ (clear_ro a s name value).1
  unfolding clear_ro
  clear_ro_exists s name value =
      ground (arith, str_eql_refl name, l.lookup-delete s name false name)

  lookup-write_prop :
      (skip_svc exists : Bool) (s : a.Values) (name value m : Text)
      → is_some (a.lookup s name) ≡ exists
      → is_control name ≡ false
      → (write_prop a skip_svc exists s name value).1 ≡ 0
      → a.lookup (write_prop a skip_svc exists s name value).0 m
        ≡ (if str_eql name m then some value else a.lookup s m)
  unfolding write_prop
  lookup-write_prop true true s name value m e c h = l.lookup-update s name value m h
  lookup-write_prop true false s name value m e c h = l.lookup-add s name value m e h
  lookup-write_prop false exists s name value m e c h = l.lookup-service s name value m c h

  lookup-store_persist :
      (wants : Bool) (r : a.Values × ℕ) (name value m : Text)
      → a.lookup (store_persist a wants r name value).0 m ≡ a.lookup r.0 m
  lookup-store_persist wants (s, ret) name value m =
      ground (arith, l.lookup-persist_set s name value m)

  store_persist-ok :
      (wants : Bool) (r : a.Values × ℕ) (name value : Text)
      → (store_persist a wants r name value).1 ≡ 0
      → r.1 ≡ 0
  store_persist-ok wants (s, ret) name value h = ground (arith, h)

  -- What a successful set_prop leaves at a name.
  lookup-set_prop :
      (name value m : Text) (flags : PropFlags) (s : a.Values)
      → is_control name ≡ false
      → (set_prop a name value flags s).1 ≡ 0
      → a.lookup (set_prop a name value flags s).0 m
        ≡ (if str_eql name m then some value else a.lookup s m)
  unfolding set_prop
  lookup-set_prop name value m flags s c h =
      let (s1, exists) = clear_ro a s name value in
      let skip_svc = flags.skip_svc || is_ro name in
      let written = write_prop a skip_svc exists s1 name value in
      let wants = skip_svc && (flags.persist && is_persist name) in
      ground (
        arith,
        h,
        lookup-store_persist wants written name value m,
        store_persist-ok wants written name value,
        lookup-write_prop skip_svc exists s1 name value m (clear_ro_exists s name value) c,
        lookup-clear_ro s name value m,
      )

  -- When set_prop returns 0 for a name that is no command of the property service, then get_prop
  -- gives the new value at this name, and at every other name what it gave before.
  pub set_prop-get_prop :
      (name value m : Text) (flags : PropFlags) (s : a.Values)
      → is_control name ≡ false
      → (set_prop a name value flags s).1 ≡ 0
      → check_legal_property_name m ≡ true
      → get_prop a m no_flags (set_prop a name value flags s).0
        ≡ (if str_eql name m then value else get_prop a m no_flags s)
  unfolding get_prop
  set_prop-get_prop name value m flags s c h k =
      ground (arith, k, lookup-set_prop name value m flags s c h)

  -- With the flags of a direct and persistent write, a persistent property that set_prop wrote is in
  -- the storage too.
  pub set_prop-persist_get :
      (name value : Text) (flags : PropFlags) (s : a.Values)
      → (flags.skip_svc && (flags.persist && is_persist name)) ≡ true
      → (set_prop a name value flags s).1 ≡ 0
      → a.persist_get (set_prop a name value flags s).0 name ≡ some value
  unfolding set_prop
  set_prop-persist_get name value flags s f h =
      let (s1, exists) = clear_ro a s name value in
      let r = write_prop a true exists s1 name value in
      ground (arith, f, h, l.persist_get-persist_set r.0 name value)

  -- After delete_prop get_prop gives no value at a legal name, and at every other name what it gave
  -- before.
  pub delete_prop-get_prop :
      (name m : Text) (flags : PropFlags) (s : a.Values)
      → check_legal_property_name name ≡ true
      → check_legal_property_name m ≡ true
      → get_prop a m no_flags (delete_prop a name flags s).0
        ≡ (if str_eql name m then [] else get_prop a m no_flags s)
  unfolding get_prop delete_prop
  delete_prop-get_prop name m flags s k j =
      let s1 = (a.delete s name true).0 in
      ground (arith, k, j, l.lookup-delete s name true m, l.lookup-persist_delete s1 name m)
