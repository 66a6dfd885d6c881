-- ===== src/Boot/Repack/Reset.antt =====
-- The sizes that `repack` of native/src/boot/bootimg.cpp resets.
use kitsune_ufork.Common.{
  ℕ, ◌≤◌, ◌≡◌, refl, sym, ap, ◌∙◌, false, ◌&&◌, none, arith, ◌==◌, if◌then◌else◌, Bool-cases,
  Option-cases, ==_iff, leb, ◌||◌, subst, inl, inr,
}
use kitsune_ufork.Boot.Header.{Hdr, get, set, page_size, offset, is_page_size}
use kitsune_ufork.Boot.Header.Laws.{IsHdr, set-IsHdr, get-set_hidden}
use kitsune_ufork.Boot.Layout.{
  Block, kernel, ramdisk, second, extra, recovery_dtbo, dtb, signature, vendor_ramdisk_table,
  bootconfig, size_field,
}
use kitsune_ufork.Boot.Image.{block_number}
use kitsune_ufork.Boot.Repack.Sizes.{set_own, set_other, set_page}

not_page : (b : Block) → is_page_size (size_field b) ≡ false
unfolding size_field
not_page kernel = refl
not_page ramdisk = refl
not_page second = refl
not_page extra = refl
not_page recovery_dtbo = refl
not_page dtb = refl
not_page signature = refl
not_page vendor_ramdisk_table = refl
not_page bootconfig = refl

hidden_zero : (b : Block) (h : Hdr) → offset h.kind (size_field b) ≡ none → get (size_field b) h ≡ 0
unfolding get
hidden_zero b h e = ground (arith, e, not_page b)

reset_own : (b : Block) (h : Hdr) → IsHdr h → get (size_field b) (set (size_field b) 0 h) ≡ 0
reset_own b h i = elim (Option-cases (offset h.kind (size_field b))) [
  | inl e ↦ get-set_hidden (size_field b) (size_field b) 0 h e ∙ hidden_zero b h e
  | inr (a, e) ↦ set_own b 0 h i (omega arith) (ground (arith, e))
]

block_at : ℕ → Block
block_at n =
    if n == 0
    then kernel
    else if n == 1
    then ramdisk
    else if n == 2
    then second
    else if n == 3
    then extra
    else if n == 4
    then recovery_dtbo
    else if n == 5
    then dtb
    else if n == 6
    then signature
    else if n == 7
    then vendor_ramdisk_table
    else bootconfig

block_at_lem : (b : Block) → block_at (block_number b) ≡ b
unfolding block_at
block_at_lem kernel = refl
block_at_lem ramdisk = refl
block_at_lem second = refl
block_at_lem extra = refl
block_at_lem recovery_dtbo = refl
block_at_lem dtb = refl
block_at_lem signature = refl
block_at_lem vendor_ramdisk_table = refl
block_at_lem bootconfig = refl

-- A size that is reset reads as zero, also where the class has no such field.
reset :
    (b c : Block) (h : Hdr)
    → IsHdr h
    → get (size_field b) (set (size_field c) 0 h)
      ≡ (if block_number b == block_number c then 0 else get (size_field b) h)
reset b c h i = elim (Bool-cases (block_number b == block_number c)) [
  | inr n ↦ ground (arith, n, set_other c b 0 h i (omega arith) n)
  | inl y ↦
      let same : b ≡ c =
        sym (block_at_lem b)
        ∙ ap block_at ((==_iff (block_number b) (block_number c)).0 y)
        ∙ block_at_lem c in
      let zero_now =
        subst (λ d. get (size_field b) (set (size_field d) 0 h) ≡ 0) same (reset_own b h i) in
      ground (arith, y, zero_now)
]

-- The header that repack starts from, without a header file.
abbrev pub reset_hdr : Hdr → Hdr
reset_hdr h = set (size_field bootconfig) 0 (
    set (size_field dtb) 0
      (set (size_field second) 0 (set (size_field ramdisk) 0 (set (size_field kernel) 0 h))))

pub reset_hdr-IsHdr : (h : Hdr) → IsHdr h → IsHdr (reset_hdr h)
reset_hdr-IsHdr h i =
    set-IsHdr _ 0 _ (set-IsHdr _ 0 _ (set-IsHdr _ 0 _ (set-IsHdr _ 0 _ (set-IsHdr _ 0 h i))))

block_number_few : (b : Block) → block_number b ≤ 8
block_number_few kernel = omega arith
block_number_few ramdisk = omega arith
block_number_few second = omega arith
block_number_few extra = omega arith
block_number_few recovery_dtbo = omega arith
block_number_few dtb = omega arith
block_number_few signature = omega arith
block_number_few vendor_ramdisk_table = omega arith
block_number_few bootconfig = omega arith

-- The sizes that are reset are zero, and the others are the old ones.
pub reset_hdr_sizes :
    (b : Block) (h : Hdr)
    → IsHdr h
    → get (size_field b) (reset_hdr h) ≡ (
        if leb 3 (block_number b)
          && (leb (block_number b) 4 || leb 6 (block_number b) && leb (block_number b) 7)
        then get (size_field b) h
        else 0)
reset_hdr_sizes b h i =
    let i1 = set-IsHdr (size_field kernel) 0 h i in
    let h1 = set (size_field kernel) 0 h in
    let i2 = set-IsHdr (size_field ramdisk) 0 h1 i1 in
    let h2 = set (size_field ramdisk) 0 h1 in
    let i3 = set-IsHdr (size_field second) 0 h2 i2 in
    let h3 = set (size_field second) 0 h2 in
    let i4 = set-IsHdr (size_field dtb) 0 h3 i3 in
    let h4 = set (size_field dtb) 0 h3 in
    let r = reset b bootconfig h4 i4 in
    let r4 = reset b dtb h3 i3 in
    let r3 = reset b second h2 i2 in
    let r2 = reset b ramdisk h1 i1 in
    let r1 = reset b kernel h i in
    let few = block_number_few b in ground (arith, r, r4, r3, r2, r1, few)

pub reset_hdr-page : (h : Hdr) → IsHdr h → get page_size (reset_hdr h) ≡ get page_size h
reset_hdr-page h i =
    let i1 = set-IsHdr (size_field kernel) 0 h i in
    let h1 = set (size_field kernel) 0 h in
    let i2 = set-IsHdr (size_field ramdisk) 0 h1 i1 in
    let h2 = set (size_field ramdisk) 0 h1 in
    let i3 = set-IsHdr (size_field second) 0 h2 i2 in
    let h3 = set (size_field second) 0 h2 in
    let i4 = set-IsHdr (size_field dtb) 0 h3 i3 in
    let h4 = set (size_field dtb) 0 h3 in
    set_page bootconfig 0 h4 i4 (omega arith)
    ∙ set_page dtb 0 h3 i3 (omega arith)
    ∙ set_page second 0 h2 i2 (omega arith)
    ∙ set_page ramdisk 0 h1 i1 (omega arith)
    ∙ set_page kernel 0 h i (omega arith)
