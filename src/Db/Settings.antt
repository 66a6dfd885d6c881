-- ===== src/Db/Settings.antt =====
-- db_dict, db_settings, db_strings and the row callbacks of get_db_settings and get_db_strings:
-- native/src/core/include/db.hpp and native/src/core/db.cpp.
use kitsune_ufork.Common.{
  ℕ, zero, suc, ◌≤◌, ◌<◌, pos, ◌≡◌, refl, ap, ◌∙◌, Bool, ◌||◌, true, false, Option, none, some,
  List, [], ◌∷◌, Text, codes, arith, length, str_eql, str_eql_iff, str_eql_refl, ◌==◌,
  if◌then◌else◌, Bool-cases, inl, inr,
}
use kitsune_ufork.Base.Number.{Outcome, value, parse_int}

abbrev pub setting_keys : List Text
setting_keys =
    codes "root_access"
    ∷ codes "su_biometric"
    ∷ codes "multiuser_mode"
    ∷ codes "mnt_ns"
    ∷ codes "magiskhide"
    ∷ codes "sulist"
    ∷ codes "nethunter_mode"
    ∷ codes "modules_hiding"
    ∷ codes "modules_filter"
    ∷ codes "zygisk"
    ∷ []

abbrev pub string_keys : List Text
string_keys = codes "requester" ∷ []

-- get_idx, of db_settings and of db_strings: past the last index for an unknown key.
unfoldable pub get_idx : List Text → Text → ℕ
get_idx [] key = 0
get_idx (k ∷ keys) key = if str_eql key k then 0 else suc (get_idx keys key)

-- `data`, of N + 1 slots; `none` is a slot that nothing has written.
abbrev pub Slots : Type 0 → Type 0
Slots T = List (Option T)

unfoldable pub fresh : {T : Type 0} → List Text → Slots T
fresh [] = none ∷ []
fresh (k ∷ keys) = none ∷ fresh keys

module _ {T : Type 0} where
  unfoldable pub load : ℕ → Slots T → Option T
  load i [] = none
  load zero (x ∷ data') = x
  load (suc i) (x ∷ data') = load i data'

  unfoldable pub store : ℕ → T → Slots T → Slots T
  store i v [] = []
  store zero v (x ∷ data') = some v ∷ data'
  store (suc i) v (x ∷ data') = x ∷ store i v data'

  -- The callback on each row: `cfg[row["key"]] = value`.
  unfoldable pub read_rows : List Text → List (Text × T) → Slots T → Slots T
  read_rows keys [] cfg = cfg
  read_rows keys ((key, v) ∷ rows) cfg = read_rows keys rows (store (get_idx keys key) v cfg)

-- db_settings(): false is 0.
unfoldable pub db_settings : Slots Outcome
db_settings =
    let set = λ (i n : ℕ) (data' : Slots Outcome). store i (value (pos n)) data' in
    set 5 0 (set 9 0 (set 4 0 (set 3 1 (set 2 0 (set 1 0 (set 0 3 (fresh setting_keys)))))))

unfoldable pub parse_rows : List (Text × Text) → List (Text × Outcome)
parse_rows [] = []
parse_rows ((key, v) ∷ rows) = (key, parse_int v) ∷ parse_rows rows

-- get_db_settings, when the query succeeds with these rows.
unfoldable pub get_db_settings : List (Text × Text) → Slots Outcome → Slots Outcome
get_db_settings rows cfg = read_rows setting_keys (parse_rows rows) cfg

-- The key is one of the list.
abbrev pub known : List Text → Text → Bool
known [] key = false
known (k ∷ keys) key = str_eql key k || known keys key

get_idx-le : (keys : List Text) (key : Text) → get_idx keys key ≤ length keys
unfolding get_idx
get_idx-le [] key = omega arith
get_idx-le (k ∷ keys) key = ground (arith, get_idx-le keys key)

-- Only one key has the index of a known key.
get_idx-injective :
    (keys : List Text) (a b : Text) → known keys a ≡ true → get_idx keys a ≡ get_idx keys b → a ≡ b
unfolding get_idx
get_idx-injective [] a b h e = absurd (ground (arith, h))
get_idx-injective (k ∷ keys) a b h e =
    ground (arith, h, e, get_idx-injective keys a b, str_eql_iff a k, str_eql_iff b k)

get_idx-eql :
    (keys : List Text) (a b : Text)
    → known keys b ≡ true
    → (get_idx keys a == get_idx keys b) ≡ str_eql a b
get_idx-eql keys a b h = elim (Bool-cases (str_eql a b)) [
  | inl e ↦ let p = (str_eql_iff a b).0 e in rw p (ground (arith, str_eql_refl b))
  | inr e ↦ ground (arith, e, h, get_idx-injective keys b a, str_eql_iff a b)
]

module _ {T : Type 0} where
  load-store :
      (i j : ℕ) (v : T) (cfg : Slots T)
      → i < length cfg
      → load j (store i v cfg) ≡ (if i == j then some v else load j cfg)
  unfolding load store
  load-store i j v [] h = absurd (omega arith)
  load-store zero zero v (x ∷ cfg) h = refl
  load-store zero (suc j) v (x ∷ cfg) h = ground arith
  load-store (suc i) zero v (x ∷ cfg) h = ground arith
  load-store (suc i) (suc j) v (x ∷ cfg) h = ground (arith, load-store i j v cfg)

  length-store : (i : ℕ) (v : T) (cfg : Slots T) → length (store i v cfg) ≡ length cfg
  unfolding store
  length-store i v [] = refl
  length-store zero v (x ∷ cfg) = refl
  length-store (suc i) v (x ∷ cfg) = ap suc (length-store i v cfg)

  -- The value of the last row with the key, or what was there before.
  abbrev pub last_value : Text → List (Text × T) → Option T → Option T
  last_value key [] before = before
  last_value key ((k, v) ∷ rows) before =
      last_value key rows (if str_eql k key then some v else before)

  -- After the callback has seen the rows, a known key has the value of its last row, and the
  -- value it had before when no row has it; rows with unknown keys touch no known key. Every
  -- index the callback uses is within the N + 1 slots.
  pub read_rows-last :
      (keys : List Text) (rows : List (Text × T)) (cfg : Slots T) (key : Text)
      → length cfg ≡ suc (length keys)
      → known keys key ≡ true
      → load (get_idx keys key) (read_rows keys rows cfg)
        ≡ last_value key rows (load (get_idx keys key) cfg)
  unfolding read_rows
  read_rows-last keys [] cfg key n h = refl
  read_rows-last keys ((k, v) ∷ rows) cfg key n h =
      let i = get_idx keys k in
      let j = get_idx keys key in
      let later = read_rows-last keys rows (store i v cfg) key (length-store i v cfg ∙ n) h in
      let here : load j (store i v cfg) ≡ (if str_eql k key then some v else load j cfg) =
        load-store i j v cfg (omega (arith, n, get_idx-le keys k))
        ∙ ap (λ (b : Bool). if b then some v else load j cfg) (get_idx-eql keys k key h) in
      later ∙ ap (last_value key rows) here

-- The three settings that db_settings() leaves out hold nothing until a row is read.
pub db_settings_unset :
    (load 6 db_settings ≡ none) × ((load 7 db_settings ≡ none) × (load 8 db_settings ≡ none))
unfolding db_settings load store fresh
db_settings_unset = (refl, (refl, refl))
