-- ===== src/Props/Args/Whole.antt =====
-- Two runs of resetprop of native/src/core/resetprop/resetprop.cpp: one that sets a property, and one
-- that reads it.
use kitsune_ufork.Common.{
  ℕ, Bool, true, false, ◌||◌, ◌≡◌, refl, sym, ap, ◌∙◌, subst, Option, none, some, List, [], ◌∷◌,
  Text, str_eql_iff, arith,
}
use kitsune_ufork.Props.{Area, no_flags, check_legal_property_name, get_prop, is_blank}
use kitsune_ufork.Props.Laws.{is_control, IsLawful, set_prop-get_prop}
use kitsune_ufork.Props.Args.{
  Options, no_options, parse_flags, action_of, Inputs, run, resetprop_main, answer, assign,
}
use kitsune_ufork.Props.Args.Switches.{
  is_plain, parse_flags_plain, switches, switched, plain_args, parse_flags-switches,
}

abbrev code_of : Option (List Text × ℕ) → ℕ
code_of none = 1
code_of (some (lines, code)) = code

module _ (a : Area) where
  main_parsed :
      (w : Inputs) (argv args : List Text) (o : Options) (s : a.Values)
      → parse_flags argv no_options ≡ some (o, args)
      → resetprop_main a w argv s ≡ run a w o.flags (action_of o args) s
  unfolding resetprop_main
  main_parsed w argv args o s e = rw (e, resetprop_main) refl

  main_set :
      (n p only v z : Bool) (name value : Text) (w : Inputs) (s : a.Values)
      → is_plain name ≡ true
      → resetprop_main a w (switches n p only v z false ∷ name ∷ value ∷ []) s
        ≡ run a w (switched n (only || p) only v z false).flags (assign name value) s
  unfolding action_of plain_args
  main_set n p only v z name value w s k =
      main_parsed w _ _ _ s (parse_flags-switches n p only v z false (name ∷ value ∷ []) k)

  main_get :
      (name : Text) (w : Inputs) (s : a.Values)
      → is_plain name ≡ true
      → resetprop_main a w (name ∷ []) s ≡ (s, some (answer (get_prop a name no_flags s)))
  unfolding action_of run plain_args
  main_get name w s k = main_parsed w _ _ _ s (parse_flags_plain (name ∷ []) no_options k)

  -- Over every area that keeps the laws: when a run of resetprop with a name and a value, and any
  -- switches but -w, exits with 0 and prints nothing, then the next run with that name prints the
  -- value and exits with 0. The name is legal, begins with no dash and is no command of the property
  -- service, and the value is not empty.
  pub resetprop_main-set-get :
      (l : IsLawful a) (n p only v z : Bool) (name value : Text) (w : Inputs) (s s' : a.Values)
      → is_plain name ≡ true
      → check_legal_property_name name ≡ true
      → is_control name ≡ false
      → is_blank value ≡ false
      → resetprop_main a w (switches n p only v z false ∷ name ∷ value ∷ []) s ≡ (s', some ([], 0))
      → resetprop_main a w (name ∷ []) s' ≡ (s', some (value ∷ [], 0))
  unfolding run
  resetprop_main-set-get l n p only v z name value w s s' k legal c b h =
      let flags = (switched n (only || p) only v z false).flags in
      let e = sym (main_set n p only v z name value w s k) ∙ h in
      let same = ap (λ (r : a.Values × Option (List Text × ℕ)). r.0) e in
      let ok = ap (λ (r : a.Values × Option (List Text × ℕ)). code_of r.1) e in
      let got = set_prop-get_prop a l name value name flags s c ok legal in
      let value_got =
        subst (λ t. get_prop a name no_flags t ≡ value) same
          (got ∙ rw ((str_eql_iff name name).1 refl) refl) in
      main_get name w s' k ∙ rw value_got (ground (arith, b))
