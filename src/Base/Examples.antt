-- ===== src/Base/Examples.antt =====
-- The theorems on native/src/base at concrete inputs.
use kitsune_ufork.Common.{
  ℕ, ◌≡◌, refl, Bool, true, some, [], ◌∷◌, List, All, Text, codes, length, arith,
}
use kitsune_ufork.Base.Chunks.{Chunker, finalize, write_all}
use kitsune_ufork.Base.Chunks.Whole.{joined, finalize-write_all}
use kitsune_ufork.Base.Strings.{replace_all}
use kitsune_ufork.Base.Strings.Replacing.{Replaces, replace_all-Replaces}
use kitsune_ufork.Base.Patch.{patch}
use kitsune_ufork.Base.Patch.Whole.{pad, patch-replace_all}

abbrev always : List Text → Text → Bool
always written chunk = true

replace_all-Replaces_example :
    (t : Text) × (replace_all (codes "ab") (codes "b") (codes "aabab") ≡ some t)
    × Replaces (codes "ab") (codes "b") (codes "aabab") t
replace_all-Replaces_example =
    replace_all-Replaces (codes "ab") (codes "b") (codes "aabab") (omega arith)

finalize-write_all_example :
    (c : Chunker) × (write_all always 4
        (codes "abc" ∷ codes "defgh" ∷ [])
        (record { buffered = []; written = [] })
      ≡ some (c, true))
    × (joined (finalize always 4 c).written ≡ joined (codes "abc" ∷ codes "defgh" ∷ []))
    × All (λ x. length x ≡ 4) c.written
finalize-write_all_example =
    finalize-write_all 4 always (λ written chunk. refl) (codes "abc" ∷ codes "defgh" ∷ [])
      (omega arith)

patch-replace_all_example :
    (t : Text) × ((v : List ℕ) × (patch (codes "ab") (codes "x") (codes "aabab") ≡ some (t, v))
      × (replace_all (codes "ab") (pad (codes "ab") (codes "x")) (codes "aabab") ≡ some t)
      × (length t ≡ length (codes "aabab")))
patch-replace_all_example =
    patch-replace_all (codes "ab") (codes "x") (codes "aabab") (omega arith) (omega arith)
