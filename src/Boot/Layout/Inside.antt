-- ===== src/Boot/Layout/Inside.antt =====
-- Where the blocks that native/src/boot/bootimg.cpp finds lie in the map.
use kitsune_ufork.Common.{
  ℕ, ◌+◌, ◌^◌, ◌≤◌, ◌<◌, ◌≡◌, refl, sym, ◌∙◌, false, List, [], ◌∷◌, arith, ltb, ◌==◌,
}
use kitsune_ufork.Boot.Memory.{as_int, align_to}
use kitsune_ufork.Boot.Memory.Laws.{align_to_lem}
use kitsune_ufork.Boot.Header.{Hdr, get, page_size}
use kitsune_ufork.Boot.Layout.{
  Block, Blocks, crash, corrupted, found, size_field, with_block, get_blocks,
}

-- The blocks stand one behind the other between two places, each with all of its bytes.
abbrev pub InOrder : Hdr → ℕ → ℕ → List (Block × ℕ) → Type 0
InOrder h from to [] = from ≤ to
InOrder h from to ((b, at) ∷ l) = (from ≤ at) × (InOrder h (at + get (size_field b) h) to l)

-- A size is a uint32_t, and a page size a positive int.
abbrev pub HasSizes : Hdr → Type 0
HasSizes h = (b : Block) → get (size_field b) h < 2 ^ 32

with_block-found :
    (b : Block) (at end : ℕ) (r : Blocks) (l : List (Block × ℕ))
    → with_block b at r ≡ found l end
    → (m : List (Block × ℕ)) × ((r ≡ found m end) × (l ≡ (b, at) ∷ m))
with_block-found b at end crash l e = absurd (ground (arith, e))
with_block-found b at end corrupted l e = absurd (ground (arith, e))
with_block-found b at end (found m f) l e = (m, (ground (arith, e), ground (arith, e)))

pub as_int_lem : (a : ℕ) → a < 2 ^ 31 → as_int a ≡ a
unfolding as_int
as_int_lem a h = ground arith

abbrev pub behind : Hdr → ℕ → Block → ℕ
behind h off b = align_to (off + get (size_field b) h) (as_int (get page_size h))

InOrder-from :
    (h : Hdr) (from' from to : ℕ) (l : List (Block × ℕ))
    → from' ≤ from
    → InOrder h from to l
    → InOrder h from' to l
InOrder-from h from' from to [] k o = omega arith
InOrder-from h from' from to ((b, at) ∷ l) k (o, os) = (omega arith, os)

pub get_blocks_next :
    (h : Hdr) (base limit off : ℕ) (b : Block) (bs : List Block)
    → (get page_size h == 0) ≡ false
    → ltb limit (base + behind h off b) ≡ false
    → get_blocks h base limit off (b ∷ bs)
      ≡ with_block b (base + off) (get_blocks h base limit (behind h off b) bs)
unfolding get_blocks
get_blocks_next h base limit off b bs p f = rw (p, f) refl

get_blocks_stops :
    (h : Hdr) (base limit off end : ℕ) (b : Block) (bs : List Block) (l : List (Block × ℕ))
    → get_blocks h base limit off (b ∷ bs) ≡ found l end
    → ((get page_size h == 0) ≡ false) × (ltb limit (base + behind h off b) ≡ false)
unfolding get_blocks
get_blocks_stops h base limit off end b bs l e = ground (arith, e)

-- When parse_image finds the blocks of a header whose page size is below 2^31, in a map below 2^62
-- bytes in which the blocks begin, they lie in the map, behind the header, one behind the other
-- without overlap, each with all of the bytes that its header claims.
pub get_blocks-InOrder :
    (h : Hdr) (base limit off end : ℕ) (bs : List Block) (l : List (Block × ℕ))
    → HasSizes h
    → get page_size h < 2 ^ 31
    → limit < 2 ^ 62
    → base + off ≤ limit
    → get_blocks h base limit off bs ≡ found l end
    → (InOrder h (base + off) (base + end) l) × (base + end ≤ limit)
unfolding get_blocks
get_blocks-InOrder h base limit off end [] l z p k i e = ground (arith, e, i)
get_blocks-InOrder h base limit off end (b ∷ bs) l z p k i e =
    let (page, fits) = get_blocks_stops h base limit off end b bs l e in
    let next = behind h off b in
    let goes = get_blocks_next h base limit off b bs page fits in
    let (m, (f, c)) =
      with_block-found b (base + off) end (get_blocks h base limit next bs) l (sym goes ∙ e) in
    let (o, q) = get_blocks-InOrder h base limit next end bs m z p k (ground (arith, fits)) f in
    let a =
      align_to_lem (off + get (size_field b) h) (as_int (get page_size h))
        (rw (as_int_lem (get page_size h) p) (ground (arith, page)))
        (rw (as_int_lem (get page_size h) p) (omega (arith, z b))) in
    rw c (
      (
        omega arith,
        InOrder-from h (base + off + get (size_field b) h) (base + next) (base + end) m
            (omega (arith, a.0)) o,
      ),
      q,
    )
