-- ===== src/Boot/Repack/Between.antt =====
-- What holds between the blocks while `repack` of native/src/boot/bootimg.cpp writes them, and what
-- writing one more of them keeps.
use kitsune_ufork.Common.{
  ℕ, suc, ◌-◌, ◌^◌, ◌≤◌, ◌<◌, ◌≡◌, refl, sym, ap, ◌∙◌, true, Option, none, some, List, [], ◌∷◌,
  ◌++◌, Text, length, All, arith, length-append,
}
use mathlib.Core.List.{append-nil}
use kitsune_ufork.Boot.Memory.{round_up, align_padding}
use kitsune_ufork.Boot.Memory.Laws.{round_up_twice}
use kitsune_ufork.Boot.Header.{Hdr, get, set, page_size, shown}
use kitsune_ufork.Boot.Header.Laws.{IsHdr, set-IsHdr}
use kitsune_ufork.Boot.Layout.{Block, size_field, file_align, write_blocks}
use kitsune_ufork.Boot.Layout.Written.{Claims, length-file_align, file_align-length}
use kitsune_ufork.Boot.Image.{block_number}
use kitsune_ufork.Boot.Repack.{Out}
use kitsune_ufork.Boot.Repack.Sizes.{set_other, set_page, set_own}

-- After the blocks `cs`, all with numbers below `k`: the file is the blocks one after the other, and
-- their sizes are in the header, while those of the blocks to come are as they were.
pub record Writing (page start k : ℕ) (h0 : Hdr) (fd0 : Text) (cs : List (Block × Text)) (o : Out)
    : Type 0 where
  pub file : o.fd ≡ write_blocks start page cs fd0
  pub aligned : file_align start page o.fd ≡ o.fd
  pub at_header : o.header ≡ start
  pub starts : start ≤ length o.fd
  pub is_hdr : IsHdr o.hdr
  pub kind : o.hdr.kind ≡ h0.kind
  pub paged : get page_size o.hdr ≡ page
  pub below : All (λ (c : Block × Text). block_number c.0 < k) cs
  pub claims : Claims o.hdr cs
  pub rest : (b : Block) → k ≤ block_number b → get (size_field b) o.hdr ≡ get (size_field b) h0

pub file_align_aligned :
    (start page : ℕ) (fd : Text)
    → round_up (length fd - start) page ≡ length fd - start
    → file_align start page fd ≡ fd
unfolding file_align align_padding
file_align_aligned start page fd e =
    let none : align_padding (length fd - start) page ≡ 0 = omega (arith, e) in
    rw none (append-nil fd)

pub file_align_twice :
    (start page : ℕ) (fd : Text)
    → 0 < page
    → start ≤ length fd
    → file_align start page (file_align start page fd) ≡ file_align start page fd
file_align_twice start page fd p s =
    let x = length fd - start in
    let e : length (file_align start page fd) - start ≡ round_up x page =
      omega (arith, length-file_align start page fd p s) in
    file_align_aligned start page (file_align start page fd) (rw e (round_up_twice x page p))

pub write_blocks-snoc :
    (start page : ℕ) (cs : List (Block × Text)) (b : Block) (c fd : Text)
    → write_blocks start page (cs ++ (b, c) ∷ []) fd
      ≡ file_align start page (write_blocks start page cs fd ++ c)
unfolding write_blocks
write_blocks-snoc start page [] b c fd = refl
write_blocks-snoc start page ((d, e) ∷ cs) b c fd =
    write_blocks-snoc start page cs b c (file_align start page (fd ++ e))

pub below-snoc :
    (k : ℕ) (cs : List (Block × Text)) (b : Block) (c : Text)
    → All (λ (c : Block × Text). block_number c.0 < k) cs
    → block_number b ≡ k
    → All (λ (c : Block × Text). block_number c.0 < suc k) (cs ++ (b, c) ∷ [])
below-snoc k [] b c h e = (omega arith, tt)
below-snoc k (d ∷ cs) b c h e = (omega arith, below-snoc k cs b c h.1 e)

pub Claims-snoc :
    (h : Hdr) (cs : List (Block × Text)) (b : Block) (c : Text)
    → Claims h cs
    → get (size_field b) h ≡ length c
    → Claims h (cs ++ (b, c) ∷ [])
Claims-snoc h [] b c v e = (e, tt)
Claims-snoc h ((d, f) ∷ cs) b c (v, vs) e = (v, Claims-snoc h cs b c vs e)

Claims-set :
    (k : ℕ) (b : Block) (v : ℕ) (h : Hdr) (cs : List (Block × Text))
    → IsHdr h
    → v < 2 ^ 32
    → block_number b ≡ k
    → All (λ (c : Block × Text). block_number c.0 < k) cs
    → Claims h cs
    → Claims (set (size_field b) v h) cs
Claims-set k b v h [] i w e l c = tt
Claims-set k b v h ((d, t) ∷ cs) i w e (l, ls) (c, cs') =
    (set_other b d v h i w (ground arith) ∙ c, Claims-set k b v h cs i w e ls cs')

abbrev pub or_nothing : Option Text → Text
or_nothing none = []
or_nothing (some c) = c

-- A block that is written with its size, in a field of the header; or one that is not there, and
-- had no size.
abbrev pub Fits : Hdr → Block → Option Text → Type 0
Fits h b none = get (size_field b) h ≡ 0
Fits h b (some c) = (length c < 2 ^ 32) × (shown h.kind (size_field b) ≡ true)

-- The same for bytes appended with the size stored by any caller.
pub written :
    (page start k : ℕ) (h0 : Hdr) (fd0 c : Text) (cs : List (Block × Text)) (b : Block) (o o' : Out)
    → 0 < page
    → Writing page start k h0 fd0 cs o
    → block_number b ≡ k
    → length c < 2 ^ 32
    → shown h0.kind (size_field b) ≡ true
    → o'.fd ≡ file_align start page (o.fd ++ c)
    → o'.hdr ≡ set (size_field b) (length c) o.hdr
    → o'.header ≡ o.header
    → Writing page start (suc k) h0 fd0 (cs ++ (b, c) ∷ []) o'
unfolding set
written page start k h0 fd0 c cs b o o' p w n l s f h e = record {
  file =
      f
      ∙ ap (λ (x : Text). file_align start page (x ++ c)) w.file
      ∙ sym (write_blocks-snoc start page cs b c fd0);
  aligned =
      rw f
        (file_align_twice start page (o.fd ++ c) p (omega (arith, w.starts, length-append o.fd c)));
  at_header = e ∙ w.at_header;
  starts =
      rw f
        (omega (arith, w.starts, length-append o.fd c, file_align-length start page (o.fd ++ c)));
  is_hdr = rw h (set-IsHdr (size_field b) (length c) o.hdr w.is_hdr);
  kind = rw h w.kind;
  paged = rw h (set_page b (length c) o.hdr w.is_hdr l ∙ w.paged);
  below = below-snoc k cs b c w.below n;
  claims = rw h (
      Claims-snoc (set (size_field b) (length c) o.hdr) cs b c
        (Claims-set k b (length c) o.hdr cs w.is_hdr l n w.below w.claims)
        (set_own b (length c) o.hdr w.is_hdr l (ground (arith, s, w.kind))));
  rest = λ d m.
      rw h (set_other b d (length c) o.hdr w.is_hdr l (ground arith) ∙ w.rest d (omega arith));
}

pub skipped :
    (page start k : ℕ) (h0 : Hdr) (fd0 : Text) (cs : List (Block × Text)) (b : Block) (o : Out)
    → Writing page start k h0 fd0 cs o
    → block_number b ≡ k
    → get (size_field b) h0 ≡ 0
    → Writing page start (suc k) h0 fd0 (cs ++ (b, []) ∷ []) o
skipped page start k h0 fd0 cs b o w n z = record {
  file =
      sym w.aligned
      ∙ ap (λ (x : Text). file_align start page x) (w.file ∙ sym (append-nil _))
      ∙ sym (write_blocks-snoc start page cs b [] fd0);
  aligned = w.aligned;
  at_header = w.at_header;
  starts = w.starts;
  is_hdr = w.is_hdr;
  kind = w.kind;
  paged = w.paged;
  below = below-snoc k cs b [] w.below n;
  claims = Claims-snoc o.hdr cs b [] w.claims (w.rest b (omega arith) ∙ z);
  rest = λ d m. w.rest d (omega arith);
}
