-- ===== src/Boot/Layout/Written.antt =====
-- The blocks that `repack` of native/src/boot/bootimg.cpp writes are those that `parse_image` finds.
use kitsune_ufork.Common.{
  ℕ, zero, suc, ◌+◌, ◌-◌, ◌^◌, ◌≤◌, ◌<◌, ◌≡◌, refl, sym, ap, ◌∙◌, List, [], ◌∷◌, ◌++◌, Text, length,
  take, drop, arith, length-append, take-append, drop-append,
}
use mathlib.Core.List.{append-nil, append_assoc}
use kitsune_ufork.Base.Patch.{zeros}
use kitsune_ufork.Boot.Memory.{align_to, round_up, align_padding}
use kitsune_ufork.Boot.Memory.Laws.{align_to-round_up, round_up_lem}
use kitsune_ufork.Boot.Header.{Hdr, get, page_size}
use kitsune_ufork.Boot.Layout.{
  Block, found, size_field, with_block, get_blocks, file_align, write_blocks,
}
use kitsune_ufork.Boot.Layout.Inside.{get_blocks_next, behind, as_int_lem}

abbrev pub blocks_of : List (Block × Text) → List Block
blocks_of [] = []
blocks_of ((b, c) ∷ cs) = b ∷ blocks_of cs

-- Each block of the image holds the bytes it was given.
abbrev pub Holds : Text → List (Block × Text) → List (Block × ℕ) → Type 0
Holds out [] [] = Unit
Holds out [] (e ∷ l) = ⊥
Holds out (c ∷ cs) [] = ⊥
Holds out ((b, c) ∷ cs) ((d, at) ∷ l) =
    (d ≡ b) × (take (length c) (drop at out) ≡ c) × (Holds out cs l)

-- The header claims the length of each.
abbrev pub Claims : Hdr → List (Block × Text) → Type 0
Claims h [] = Unit
Claims h ((b, c) ∷ cs) = (get (size_field b) h ≡ length c) × (Claims h cs)

length-zeros : (n : ℕ) → length (zeros n) ≡ n
length-zeros zero = refl
length-zeros (suc n) = omega (arith, length-zeros n)

write_blocks_extends :
    (header page : ℕ) (cs : List (Block × Text)) (fd : Text)
    → (t : Text) × (write_blocks header page cs fd ≡ fd ++ t)
unfolding write_blocks file_align
write_blocks_extends header page [] fd = ([], sym (append-nil fd))
write_blocks_extends header page ((b, c) ∷ cs) fd =
    let pad = zeros (align_padding (length (fd ++ c) - header) page) in
    let (t, e) = write_blocks_extends header page cs ((fd ++ c) ++ pad) in
    (c ++ (pad ++ t), e ∙ append_assoc (fd ++ c) pad t ∙ append_assoc fd c (pad ++ t))

slice : (fd c t : Text) → take (length c) (drop (length fd) (fd ++ (c ++ t))) ≡ c
slice fd c t = rw (drop-append fd (c ++ t)) (take-append c t)

pub length-file_align :
    (header page : ℕ) (fd : Text)
    → 0 < page
    → header ≤ length fd
    → length (file_align header page fd) ≡ header + round_up (length fd - header) page
unfolding file_align align_padding
length-file_align header page fd p k =
    let a = round_up_lem (length fd - header) page p in
    let pad = align_padding (length fd - header) page in
    omega (arith, a.0, length-append fd (zeros pad), length-zeros pad)

write_blocks-length :
    (header page : ℕ) (cs : List (Block × Text)) (fd : Text)
    → length fd ≤ length (write_blocks header page cs fd)
write_blocks-length header page cs fd =
    let (t, e) = write_blocks_extends header page cs fd in rw e (omega (arith, length-append fd t))

pub file_align-length :
    (header page : ℕ) (fd : Text) → length fd ≤ length (file_align header page fd)
unfolding file_align
file_align-length header page fd =
    omega (arith, length-append fd (zeros (align_padding (length fd - header) page)))

-- What was written stays where it is.
stays :
    (start page : ℕ) (cs : List (Block × Text)) (c fd : Text)
    → start ≤ length fd
    → take (length c) (
        drop
          (start + (length fd - start))
          (write_blocks start page cs (file_align start page (fd ++ c))))
      ≡ c
unfolding file_align
stays start page cs c fd s =
    let pad = zeros (align_padding (length (fd ++ c) - start) page) in
    let (t, e) = write_blocks_extends start page cs ((fd ++ c) ++ pad) in
    let at : start + (length fd - start) ≡ length fd = omega arith in
    rw (at, e, append_assoc (fd ++ c) pad t, append_assoc fd c (pad ++ t)) (slice fd c (pad ++ t))

-- One block: where the next one begins, for the writer and for the reader.
same_next :
    (h : Hdr) (start : ℕ) (b : Block) (c fd : Text)
    → 0 < get page_size h
    → get page_size h < 2 ^ 31
    → start ≤ length fd
    → length (fd ++ c) < 2 ^ 62
    → get (size_field b) h ≡ length c
    → length (file_align start (get page_size h) (fd ++ c)) ≡ start + behind h (length fd - start) b
same_next h start b c fd p q s n v =
    let e : length (fd ++ c) - start ≡ length fd - start + get (size_field b) h =
      omega (arith, length-append fd c, v) in
    let x = length fd - start + get (size_field b) h in
    let page = get page_size h in
    let same : round_up x page ≡ align_to x page =
      sym (align_to-round_up x page p (omega (arith, length-append fd c, v))) in
    length-file_align start page (fd ++ c) p (omega (arith, length-append fd c))
    ∙ ap (λ (x : ℕ). start + round_up x page) e
    ∙ ap (λ (x : ℕ). start + x) same
    ∙ ap (λ (y : ℕ). start + align_to x y) (sym (as_int_lem page q))

-- When every header field has the length of what was written for its block, parse_image finds
-- every block, and its bytes are those written.
pub get_blocks-write_blocks :
    (h : Hdr) (start limit : ℕ) (cs : List (Block × Text)) (fd : Text)
    → 0 < get page_size h
    → get page_size h < 2 ^ 31
    → start ≤ length fd
    → length (write_blocks start (get page_size h) cs fd) ≤ limit
    → limit < 2 ^ 62
    → Claims h cs
    → (l : List (Block × ℕ)) × ((get_blocks h start limit (length fd - start) (blocks_of cs)
          ≡ found l (length (write_blocks start (get page_size h) cs fd) - start))
        × Holds (write_blocks start (get page_size h) cs fd) cs l)
unfolding get_blocks write_blocks
get_blocks-write_blocks h start limit [] fd p q s k m v = ([], (refl, tt))
get_blocks-write_blocks h start limit ((b, c) ∷ cs) fd p q s k m (v, vs) =
    let page = get page_size h in
    let fd' = file_align start page (fd ++ c) in
    let out = write_blocks start page cs fd' in
    let grows = write_blocks-length start page cs fd' in
    let longer : length (fd ++ c) ≤ length fd' = file_align-length start page (fd ++ c) in
    let n = same_next h start b c fd p q s (omega (arith, k, m, grows, longer)) v in
    let off = length fd - start in
    let (l, (e, o)) = get_blocks-write_blocks h start limit cs fd' p q (omega (arith, n)) k m vs in
    let at : length fd' - start ≡ behind h off b = omega (arith, n) in
    let rest : get_blocks h start limit (behind h off b) (blocks_of cs)
        ≡ found l (length out - start) =
      rw at at e in
    let goes =
      get_blocks_next h start limit off b (blocks_of cs) (ground arith)
        (ground (arith, n, grows, k)) in
    (
      (b, start + off) ∷ l,
      (goes ∙ ap (with_block b (start + off)) rest, (refl, stays start page cs c fd s, o)),
    )
