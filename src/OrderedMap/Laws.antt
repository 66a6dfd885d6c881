-- ===== src/OrderedMap/Laws.antt =====
-- What `find` sees after each operation.
use kitsune_ufork.Common.{◌≡◌, refl, none, some, [], ◌∷◌, arith, if◌then◌else◌}
use kitsune_ufork.OrderedMap.{Key, Map, find, put, erase}

module _ {K V : Type 0} ⦃k : Key K⦄ where
  pub find-put :
      (a b : K) (v : V) (m : Map K V)
      → find b (put a v m) ≡ (if k.beq a b then some v else find b m)
  unfolding find put
  find-put a b v [] = refl
  find-put a b v ((j, w) ∷ m) =
      ground (arith, find-put a b v m, k.beq_iff a b, k.beq_iff j a, k.beq_iff j b)

  pub find-erase :
      (a b : K) (m : Map K V) → find b (erase a m) ≡ (if k.beq a b then none else find b m)
  unfolding find erase
  find-erase a b [] = ground arith
  find-erase a b ((j, w) ∷ m) =
      ground (arith, find-erase a b m, k.beq_iff a b, k.beq_iff j a, k.beq_iff j b)
