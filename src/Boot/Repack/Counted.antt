-- ===== src/Boot/Repack/Counted.antt =====
-- The size that `repack` of native/src/boot/bootimg.cpp puts into the header for the kernel counts the
-- bytes that it writes.
use kitsune_ufork.Common.{
  ℕ, zero, suc, ◌+◌, ◌-◌, ◌%◌, ◌/◌, ◌≤◌, ◌<◌, ◌≡◌, refl, ap, Bool, true, false, not, ◌&&◌, ◌||◌,
  Option, none, some, [], ◌++◌, Text, codes, length, take, drop, arith, length-append, length-take,
  leb, ltb, Bool-cases, inl, inr, if◌then◌else◌,
}
use kitsune_ufork.Base.Patch.{zeros}
use kitsune_ufork.Base.Patch.Whole.{length-zeros}
use kitsune_ufork.Format.{gzip, zopfli}
use kitsune_ufork.Boot.Memory.{to_le, size_mod}
use kitsune_ufork.Boot.Search.{word, same_fmt}
use kitsune_ufork.Boot.Image.{Image, Source, memory, has, zimage_kernel}
use kitsune_ufork.Boot.Repack.{
  Files, Part, pack_file, fit_piggy, old_kernel, kernel_file, kernel_part, or_empty,
}

-- The bytes for a new kernel.
abbrev pub packed_kernel : Files → Bool → Image → Text → Text
packed_kernel f skip_comp m k =
    let zimage = has zimage_kernel m.flags in
    let fmt = if zimage && same_fmt m.k_fmt gzip then zopfli else m.k_fmt in
    pack_file f skip_comp fmt k

-- In a zImage the new piggy is too large, and dropped, or it leaves four bytes for its padding.
abbrev pub piggy_fits : Bool → Part → Text → Bool
piggy_fits skip_comp old w =
    ltb old.size (length w % word)
    || (not skip_comp && (leb (length w + 4) old.size && ltb old.size word))

abbrev pub kernel_fits_piggy : Files → Bool → Image → Part → Option Text → Bool
kernel_fits_piggy f skip_comp m old none = true
kernel_fits_piggy f skip_comp m old (some k) =
    not (has zimage_kernel m.flags) || piggy_fits skip_comp old (packed_kernel f skip_comp m k)

abbrev IsWhole : Part → Type 0
IsWhole p = (p.size ≡ length p.bytes)

length-to_le : (n v : ℕ) → length (to_le n v) ≡ n
unfolding to_le
length-to_le zero v = refl
length-to_le (suc n) v = ap suc (length-to_le n (v / 256))

padding_is :
    (n size : ℕ) → n + 4 ≤ size → size < word → (size - n + size_mod - 4) % size_mod ≡ size - n - 4
padding_is n size h k = omega (arith, h, k)

padded_length :
    (w k : Text) (pad : ℕ) → length (w ++ (zeros pad ++ to_le 4 (length k))) ≡ length w + pad + 4
padded_length w k pad = omega (
  arith,
  length-append w (zeros pad ++ to_le 4 (length k)),
  length-append (zeros pad) (to_le 4 (length k)),
  length-zeros pad,
  length-to_le 4 (length k),
)

smaller_piggy :
    (skip_comp : Bool) (old : Part) (k w : Text)
    → piggy_fits skip_comp old w ≡ true
    → ltb old.size (length w % word) ≡ false
    → IsWhole (fit_piggy skip_comp old k w)
unfolding fit_piggy
smaller_piggy true old k w h small = absurd (ground (arith, h, small))
smaller_piggy false old k w h small =
    let fit : length w + 4 ≤ old.size = ground (arith, h, small) in
    let short : old.size < word = ground (arith, h, small) in
    let n : length w % word ≡ length w = omega (arith, fit, short) in
    let pad = (old.size - length w % word + size_mod - 4) % size_mod in
    let size : pad ≡ old.size - length w % word - 4 =
      padding_is (length w % word) old.size (omega (arith, n, fit)) short in
    rw small (omega (arith, padded_length w k pad, size, n, fit))

fit_piggy-IsWhole :
    (skip_comp : Bool) (old : Part) (k w : Text)
    → IsWhole old
    → piggy_fits skip_comp old w ≡ true
    → IsWhole (fit_piggy skip_comp old k w)
unfolding fit_piggy
fit_piggy-IsWhole skip_comp old k w o h = elim (Bool-cases (ltb old.size (length w % word))) [
  | inl large ↦ rw large o
  | inr small ↦ smaller_piggy skip_comp old k w h small
]

fitted :
    (zimage skip_comp : Bool) (old : Part) (k w : Text)
    → IsWhole old
    → (not zimage || piggy_fits skip_comp old w) ≡ true
    → length
        (if zimage
          then fit_piggy skip_comp old k w
          else record { bytes = w; size = length w % word }).bytes
      < word
    → IsWhole (
        if zimage
        then fit_piggy skip_comp old k w
        else record { bytes = w; size = length w % word })
fitted true skip_comp old k w o h l = fit_piggy-IsWhole skip_comp old k w o h
fitted false skip_comp old k w o h l = omega (arith, l)

kernel_file-IsWhole :
    (f : Files) (skip_comp : Bool) (m : Image) (old : Part) (o : Option Text)
    → IsWhole old
    → kernel_fits_piggy f skip_comp m old o ≡ true
    → length (kernel_file f skip_comp m old o).bytes < word
    → IsWhole (kernel_file f skip_comp m old o)
kernel_file-IsWhole f skip_comp m old none whole h l = whole
kernel_file-IsWhole f skip_comp m old (some k) whole h l =
    fitted (has zimage_kernel m.flags) skip_comp old k (packed_kernel f skip_comp m k) whole h l

-- The pieces around it: the header of a zImage, its tail, and the device tree.
abbrev around : Bool → ℕ → Text → Part → Text → Text → Part
around zimage hdr_sz hdr p tail dtb =
    if zimage
    then record {
      bytes = take hdr_sz hdr ++ (p.bytes ++ (tail ++ dtb));
      size = p.size + hdr_sz + length tail + length dtb;
    }
    else record { bytes = p.bytes ++ dtb; size = p.size + length dtb }

around-IsWhole :
    (zimage : Bool) (hdr_sz : ℕ) (hdr tail dtb : Text) (p : Part)
    → (not zimage || leb hdr_sz (length hdr)) ≡ true
    → (length p.bytes < word → IsWhole p)
    → length (around zimage hdr_sz hdr p tail dtb).bytes < word
    → IsWhole (around zimage hdr_sz hdr p tail dtb)
around-IsWhole true hdr_sz hdr tail dtb p h whole l =
    let a = length-append (take hdr_sz hdr) (p.bytes ++ (tail ++ dtb)) in
    let b = length-append p.bytes (tail ++ dtb) in
    let c = length-append tail dtb in
    let w = whole (omega (arith, l, a, b)) in
    omega (arith, w, a, b, c, length-take hdr_sz hdr (ground (arith, h)))
around-IsWhole false hdr_sz hdr tail dtb p h whole l =
    let b = length-append p.bytes dtb in let w = whole (omega (arith, l, b)) in omega (arith, w, b)

-- Where the old kernel and the header of a zImage are in the map, and a new piggy fits, the header gets
-- the length of what is written, the device tree and the tail included.
pub kernel_part-IsWhole :
    (f : Files) (skip_comp : Bool) (s : Source) (m : Image)
    → (old_kernel s m).size ≡ length (old_kernel s m).bytes
    → (not (has zimage_kernel m.flags) || leb m.z_info.hdr_sz (length (drop m.z_hdr (memory s))))
      ≡ true
    → kernel_fits_piggy f skip_comp m (old_kernel s m) (f.file (codes "kernel")) ≡ true
    → length (kernel_part f skip_comp s m).bytes < word
    → (kernel_part f skip_comp s m).size ≡ length (kernel_part f skip_comp s m).bytes
unfolding kernel_part
kernel_part-IsWhole f skip_comp s m old z k l =
    let p = kernel_file f skip_comp m (old_kernel s m) (f.file (codes "kernel")) in
    let tail = take m.z_info.tail_sz (drop m.z_info.tail_at (memory s)) in
    let dtb = or_empty (f.file (codes "kernel_dtb")) in
    around-IsWhole (has zimage_kernel m.flags) m.z_info.hdr_sz (drop m.z_hdr (memory s)) tail dtb p
      z (kernel_file-IsWhole f skip_comp m (old_kernel s m) (f.file (codes "kernel")) old k) l

-- What the kernel block consists of: the new kernel or the old one, in a zImage between its old header
-- and its old tail, and then the device tree.
abbrev pub kernel_block : Files → Bool → Source → Image → Text
kernel_block f skip_comp s m =
    let zimage = has zimage_kernel m.flags in
    let z = m.z_info in
    let head = if zimage then take z.hdr_sz (drop m.z_hdr (memory s)) else [] in
    let tail = if zimage then take z.tail_sz (drop z.tail_at (memory s)) else [] in
    head
    ++ ((kernel_file f skip_comp m (old_kernel s m) (f.file (codes "kernel"))).bytes
        ++ (tail ++ or_empty (f.file (codes "kernel_dtb"))))

pub kernel_part-kernel_block :
    (f : Files) (skip_comp : Bool) (s : Source) (m : Image)
    → (kernel_part f skip_comp s m).bytes ≡ kernel_block f skip_comp s m
unfolding kernel_part
kernel_part-kernel_block f skip_comp s m = elim (Bool-cases (has zimage_kernel m.flags)) [
  | inl zimage ↦ rw zimage refl
  | inr plain ↦ rw plain refl
]
