-- ===== src/Db/Upgrade.antt =====
-- The schema upgrade of open_and_init_db against the list of scripts each version needs.
use kitsune_ufork.Common.{
  ℕ, ℤ, pos, negsuc, ◌≡◌, refl, Bool, true, false, Option, none, some, List, [], ◌∷◌, ◌++◌, Text,
  arith, leb, if◌then◌else◌, ◌⊎◌, inl, inr,
}
use kitsune_ufork.Db.{
  Sql, create_policy, create_settings, create_strings, create_denylist, rebuild_hidelist, drop_logs,
  rebuild_policies, set_user_version, reset_denylist, Run, Init, done, error, ◌then◌, exec, ver_le,
  ver_eq, create_all, from_7_8, from_9, from_10, from_11, store_version, finish, init_schema,
}

abbrev stored : List Sql
stored = set_user_version (pos 12) ∷ []

abbrev created : List Sql
created = create_policy ∷ create_settings ∷ create_strings ∷ create_denylist ∷ stored

-- The scripts that bring a database of some version up to date, in order.
abbrev pub plan : ℤ → List Sql
plan (negsuc v) = created
plan (pos v) =
    if leb v 6
    then created
    else if leb v 8
    then rebuild_hidelist ∷ drop_logs ∷ create_denylist ∷ rebuild_policies ∷ stored
    else if leb v 9
    then drop_logs ∷ create_denylist ∷ rebuild_policies ∷ stored
    else if leb v 10
    then create_denylist ∷ rebuild_policies ∷ stored
    else if leb v 11
    then rebuild_policies ∷ stored
    else []

-- Run scripts up to the first that fails; the last, whose message is ignored, only if none did.
abbrev pub run_all : (Sql → Option Text) → List Sql → List Sql → List Sql × Option Text
run_all fails ran [] = (ran ++ (reset_denylist ∷ []), none)
run_all fails ran (s ∷ rest') = elim (fails s) [
  | none ↦ run_all fails (ran ++ (s ∷ [])) rest'
  | some e ↦ (ran ++ (s ∷ []), some e)
]

abbrev pub outcome : Init → List Sql × Option Text
outcome (done r) = (r.ran, none)
outcome (error e r) = (r.ran, some e)

-- The locals when the version has reached `v`.
abbrev at : ℕ → Bool → List Sql → Run
at v b ran = record { ver = pos v; upgrade = b; ran = ran }

versions :
    (v : ℕ)
    → leb v 12 ≡ true
    → (leb v 6 ≡ true) ⊎ (((v ≡ 7) ⊎ (v ≡ 8)) ⊎ ((v ≡ 9) ⊎ ((v ≡ 10) ⊎ ((v ≡ 11) ⊎ (v ≡ 12)))))
versions v h = ground arith

module _ (fails : Sql → Option Text) where
  from_12_lem :
      (ran : List Sql)
      → outcome (store_version fails (at 12 true ran) then finish fails) ≡ run_all fails ran stored
  unfolding store_version finish exec ◌then◌
  from_12_lem ran = ground (arith)

  from_11_lem :
      (b : Bool) (ran : List Sql)
      → outcome (from_11 fails (at 11 b ran) then store_version fails then finish fails)
        ≡ run_all fails ran (rebuild_policies ∷ stored)
  unfolding from_11 exec ◌then◌ ver_eq
  from_11_lem b ran = ground (arith, from_12_lem (ran ++ (rebuild_policies ∷ [])))

  from_10_lem :
      (b : Bool) (ran : List Sql)
      → outcome (
          from_10 fails (at 10 b ran) then from_11 fails then store_version fails then finish fails)
        ≡ run_all fails ran (create_denylist ∷ rebuild_policies ∷ stored)
  unfolding from_10 exec ◌then◌ ver_eq
  from_10_lem b ran = ground (arith, from_11_lem true (ran ++ (create_denylist ∷ [])))

  from_9_lem :
      (b : Bool) (ran : List Sql)
      → outcome (
          from_9 fails (at 9 b ran)
          then from_10 fails
          then from_11 fails
          then store_version fails
          then finish fails)
        ≡ run_all fails ran (drop_logs ∷ create_denylist ∷ rebuild_policies ∷ stored)
  unfolding from_9 exec ◌then◌ ver_eq
  from_9_lem b ran = ground (arith, from_10_lem true (ran ++ (drop_logs ∷ [])))

  from_7_8_lem :
      (v : ℕ) (b : Bool) (ran : List Sql)
      → (v ≡ 7) ⊎ (v ≡ 8)
      → outcome (
          from_7_8 fails (at v b ran)
          then from_9 fails
          then from_10 fails
          then from_11 fails
          then store_version fails
          then finish fails)
        ≡ run_all fails ran
            (rebuild_hidelist ∷ drop_logs ∷ create_denylist ∷ rebuild_policies ∷ stored)
  unfolding from_7_8 exec ◌then◌ ver_eq
  from_7_8_lem v b ran h = elim h [
    | inl p ↦ rw p (ground (arith, from_9_lem true (ran ++ (rebuild_hidelist ∷ []))))
    | inr p ↦ rw p (ground (arith, from_9_lem true (ran ++ (rebuild_hidelist ∷ []))))
  ]

  created_lem :
      (version : ℤ)
      → ver_le version 6 ≡ true
      → outcome (init_schema fails version) ≡ run_all fails [] created
  unfolding init_schema create_all from_7_8 from_9 from_10 from_11 exec ◌then◌ ver_eq store_version
      finish
  created_lem version h = ground (arith, h)

  from_7_8_at :
      (v : ℕ)
      → (v ≡ 7) ⊎ (v ≡ 8)
      → outcome (init_schema fails (pos v)) ≡ run_all fails [] (plan (pos v))
  unfolding init_schema create_all ver_le ◌then◌
  from_7_8_at v (inl e) = rw e (from_7_8_lem 7 false [] (inl refl))
  from_7_8_at v (inr e) = rw e (from_7_8_lem 8 false [] (inr refl))

  from_9_to_12 :
      (v : ℕ)
      → (v ≡ 9) ⊎ ((v ≡ 10) ⊎ ((v ≡ 11) ⊎ (v ≡ 12)))
      → outcome (init_schema fails (pos v)) ≡ run_all fails [] (plan (pos v))
  unfolding init_schema create_all ver_le from_7_8 from_9 from_10 from_11 ver_eq ◌then◌
      store_version finish
  from_9_to_12 v (inl e) = rw e (from_9_lem false [])
  from_9_to_12 v (inr (inl e)) = rw e (from_10_lem false [])
  from_9_to_12 v (inr (inr (inl e))) = rw e (from_11_lem false [])
  from_9_to_12 v (inr (inr (inr e))) = rw e refl

  -- On a database of version 12 at most, negative ones included, the upgrade runs the scripts
  -- that this version needs, in order, up to the first that fails, whose message it returns; only
  -- when none failed is the version stored, after all of them, and the denylist reset last.
  pub init_schema-plan :
      (version : ℤ)
      → ver_le version 12 ≡ true
      → outcome (init_schema fails version) ≡ run_all fails [] (plan version)
  unfolding ver_le
  init_schema-plan (negsuc v) h = created_lem (negsuc v) refl
  init_schema-plan (pos v) h = elim (versions v h) [
    | inl low ↦ rw low (created_lem (pos v) low)
    | inr (inl e) ↦ from_7_8_at v e
    | inr (inr e) ↦ from_9_to_12 v e
  ]
