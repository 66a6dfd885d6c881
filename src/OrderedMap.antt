-- ===== src/OrderedMap.antt =====
-- `std::map` and `std::set`, with the comparison of the key: a list of entries kept in key order.
-- The laws of lookup need no order, so they hold of every value.
pub mod Laws
use kitsune_ufork.Common.{
  ℕ, Bool, true, false, ◌≡◌, ◌↔◌, Option, none, some, List, [], ◌∷◌, Text, str_eql, str_less,
  str_eql_iff, ==_iff, ltb, ◌==◌, if◌then◌else◌,
}

pub record Key (K : Type 0) : Type 0 where
  pub beq : K → K → Bool
  pub less : K → K → Bool
  pub beq_iff : (a b : K) → (beq a b ≡ true) ↔ (a ≡ b)

instance abbrev pub text_key : Key Text
text_key = record { beq = str_eql; less = str_less; beq_iff = str_eql_iff }

abbrev nat_eql : ℕ → ℕ → Bool
nat_eql a b = a == b

instance abbrev pub int_key : Key ℕ
int_key = record { beq = nat_eql; less = ltb; beq_iff = ==_iff }

abbrev pub Map : Type 0 → Type 0 → Type 0
Map K V = List (K × V)

module _ {K V : Type 0} ⦃k : Key K⦄ where
  -- m.find(key)
  unfoldable pub find : K → Map K V → Option V
  find key [] = none
  find key ((j, v) ∷ m) = if k.beq j key then some v else find key m

  -- m[key] = value
  unfoldable pub put : K → V → Map K V → Map K V
  put key value [] = (key, value) ∷ []
  put key value ((j, v) ∷ m) =
      let rest = put key value m in
      if k.beq j key
      then (key, value) ∷ m
      else if k.less key j
      then (key, value) ∷ (j, v) ∷ m
      else (j, v) ∷ rest

  -- m.erase(key)
  unfoldable pub erase : K → Map K V → Map K V
  erase key [] = []
  erase key ((j, v) ∷ m) = let rest = erase key m in if k.beq j key then rest else (j, v) ∷ rest

abbrev pub Set : Type 0 → Type 0
Set K = Map K (Unit {0})

-- An iterator that is not end().
abbrev pub is_some {ℓ} : {A : Type ℓ} → Option A → Bool
is_some none = false
is_some (some u) = true

module _ {K : Type 0} ⦃k : Key K⦄ where
  -- s.count(a), s.insert(a), s.erase(a); `emplace` reports whether the item is new.
  abbrev pub member : K → Set K → Bool
  member a s = is_some (find a s)

  abbrev pub insert : K → Set K → Set K
  insert a s = put a tt s
