-- ===== src/Props/Args.antt =====
-- The command line of native/src/core/resetprop/resetprop.cpp: resetprop_main, and what it runs.
pub mod Switches
pub mod Whole
use kitsune_ufork.Common.{
  ℕ, Bool, true, false, not, ◌&&◌, ◌||◌, Option, none, some, List, [], ◌∷◌, ◌++◌, map, Text, codes,
  ◌==◌, str_eql, if◌then◌else◌,
}
use kitsune_ufork.OrderedMap.{Map, find, put, is_some, text_key}
use kitsune_ufork.Props.{
  Area, PropFlags, no_flags, check_legal_property_name, set_prop, get_prop, delete_prop, load_file,
  wait_loop, or_blank, is_blank,
}

-- The local variables of resetprop_main, and the log level.
pub record Options : Type 0 where
  pub flags : PropFlags
  pub verbose : Bool
  pub prop_file : Option Text
  pub prop_to_rm : Option Text

abbrev pub no_options : Options
no_options = record { flags = no_flags; verbose = false; prop_file = none; prop_to_rm = none }

-- consume_next: what stands behind the argument must be one more, the last.
unfoldable pub consume_next : List Text → Option Text
consume_next [] = none
consume_next (value ∷ []) = some value
consume_next (value ∷ more ∷ rest) = none

abbrev pub consume_file : List Text → Options → Option (Options × Bool)
consume_file behind o = elim (consume_next behind) [
  | none ↦ none
  | some value ↦ some (record o { prop_file = some value }, true)
]

abbrev pub consume_rm : List Text → Options → Option (Options × Bool)
consume_rm behind o = elim (consume_next behind) [
  | none ↦ none
  | some value ↦ some (record o { prop_to_rm = some value }, true)
]

abbrev flag : PropFlags → Bool → Options → Option (Options × Bool)
flag flags stop o = some (record o { flags = flags }, stop)

-- One letter of an argument; `none` is the usage message, with which the process exits.
unfoldable pub letter : List Text → ℕ → Options → Bool → Option (Options × Bool)
unfolding consume_next
letter behind c o stop =
    if c == b'd'
    then consume_rm behind o
    else if c == b'f'
    then consume_file behind o
    else if c == b'n'
    then flag (record o.flags { skip_svc = true }) stop o
    else if c == b'p'
    then flag (record o.flags { persist = true }) stop o
    else if c == b'P'
    then flag (record o.flags { persist_only = true; persist = true }) stop o
    else if c == b'v'
    then some (record o { verbose = true }, stop)
    else if c == b'Z'
    then flag (record o.flags { context = true }) stop o
    else if c == b'w'
    then flag (record o.flags { wait = true }) stop o
    else none

-- A dash behind the first one: only the two long options have it.
unfoldable pub long_option : Text → List Text → Options → Option (Options × Bool)
unfolding consume_next
long_option arg behind o =
    if str_eql arg (codes "--file")
    then consume_file behind o
    else if str_eql arg (codes "--delete")
    then consume_rm behind o
    else none

-- The loop over the characters of `arg`, at the rest `s` of it.
unfoldable pub letters : Text → List Text → Text → Options → Bool → Option (Options × Bool)
unfolding letter long_option
letters arg behind [] o stop = some (o, stop)
letters arg behind (c ∷ s) o stop = elim (c == b'-') [
  | true ↦ long_option arg behind o
  | false ↦ elim (letter behind c o stop) [
    | none ↦ none
    | some (o', stop') ↦ letters arg behind s o' stop'
  ]
]

-- The loop over the arguments, with what is left of them.
unfoldable pub parse_flags : List Text → Options → Option (Options × List Text)
unfolding letters
parse_flags [] o = some (o, [])
parse_flags ([] ∷ behind) o = some (o, [] ∷ behind)
parse_flags ((c ∷ s) ∷ behind) o = elim (c == b'-') [
  | false ↦ some (o, (c ∷ s) ∷ behind)
  | true ↦ elim (letters (c ∷ s) behind s o false) [
    | none ↦ none
    | some (o', true) ↦ some (o', behind)
    | some (o', false) ↦ parse_flags behind o'
  ]
]

-- What the arguments ask for.
pub data Action : Type 0 where
  show_usage print : Action
  delete load get : Text → Action
  wait : Text → Option Text → Action
  assign : Text → Text → Action

unfoldable pub wait_args : List Text → Action
wait_args [] = show_usage
wait_args (name ∷ []) = wait name none
wait_args (name ∷ old ∷ rest) = wait name (some old)

unfoldable pub by_count : List Text → Action
by_count [] = print
by_count (name ∷ []) = get name
by_count (name ∷ value ∷ []) = assign name value
by_count (name ∷ value ∷ more ∷ rest) = show_usage

unfoldable pub action_of : Options → List Text → Action
unfolding wait_args by_count
action_of o args = elim o.prop_to_rm [
  | some name ↦ delete name
  | none ↦ elim o.prop_file [
    | some file ↦ load file
    | none ↦ if o.flags.wait then wait_args args else by_count args
  ]
]

-- prop_collector: a map's insert leaves a key that is there.
unfoldable pub collect_props : List (Text × Text) → Map Text Text → Map Text Text
unfolding find put
collect_props [] list = list
collect_props ((name, value) ∷ props) list =
    collect_props props (if is_some (find name list) then list else put name value list)

-- What the process meets: the text of the file, and the values at the readings of a property that is
-- waited for, from the first at which it is there.
pub record Inputs : Type 0 where
  pub file : Text
  pub readings : List Text

unfoldable pub wait_first : Option Text → List Text → Option Text
unfolding wait_loop
wait_first old [] = none
wait_first old (value ∷ more) = wait_loop old value more

unfoldable pub wait_prop : Text → Option Text → List Text → Option Text
unfolding wait_first check_legal_property_name
wait_prop name old readings =
    if check_legal_property_name name then wait_first old readings else some []

-- The lines printed and the code of the exit.
abbrev pub answer : Text → List Text × ℕ
answer value = if is_blank value then ([], 1) else (value ∷ [], 0)

unfoldable pub or_waiting : Option Text → Option (List Text × ℕ)
or_waiting none = none
or_waiting (some value) = some (answer value)

module _ (a : Area) where
  abbrev pub line_of : PropFlags → a.Values → Text × Text → Text
  line_of flags s (name, value) =
      let shown = if flags.context then or_blank (a.context s name) else value in
      b'[' ∷ (name ++ (codes "]: [" ++ (shown ++ (b']' ∷ []))))

  unfoldable pub print_props : PropFlags → a.Values → List Text
  unfolding collect_props
  print_props flags s =
      let list = if flags.persist_only then [] else collect_props (a.each s) [] in
      let all = if flags.persist then collect_props (a.persist_each s) list else list in
      map (line_of flags s) all

  -- `none` wait_args for ever.
  unfoldable pub run : Inputs → PropFlags → Action → a.Values → a.Values × Option (List Text × ℕ)
  unfolding print_props wait_prop or_waiting set_prop get_prop delete_prop load_file
  run w flags show_usage s = (s, some ([], 1))
  run w flags print s = (s, some (print_props flags s, 0))
  run w flags (delete name) s = let (s', ret) = delete_prop a name flags s in (s', some ([], ret))
  run w flags (load file) s = (load_file a w.file flags s, some ([], 0))
  run w flags (get name) s = (s, some (answer (get_prop a name flags s)))
  run w flags (wait name old) s = (s, or_waiting (wait_prop name old w.readings))
  run w flags (assign name value) s =
      let (s', ret) = set_prop a name value flags s in (s', some ([], ret))

  unfoldable pub resetprop_main : Inputs → List Text → a.Values → a.Values × Option (List Text × ℕ)
  unfolding run parse_flags action_of
  resetprop_main w argv s = elim (parse_flags argv no_options) [
    | none ↦ run w no_flags show_usage s
    | some (o, args) ↦ run w o.flags (action_of o args) s
  ]
