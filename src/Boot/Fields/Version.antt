-- ===== src/Boot/Fields/Version.antt =====
-- The version that `dump_hdr_file` of native/src/boot/bootimg.cpp prints is the one that
-- `load_hdr_file` reads.
use Prim.Native.Nat.{bit_or}
use kitsune_ufork.Common.{
  ℕ, zero, suc, ◌+◌, ◌-◌, ◌*◌, ◌/◌, ◌%◌, ◌^◌, ◌<◌, ◌≡◌, refl, ap, ◌∙◌, true, false, some, [], ◌∷◌,
  ◌++◌, Text, codes, ltb, arith, Bool-cases, inl, inr, str_eql,
}
use mathlib.Core.List.{append_assoc, append-nil}
use kitsune_ufork.Base.Strings.{isspace}
use kitsune_ufork.Base.Number.Printing.{print, to_string}
use kitsune_ufork.Boot.Header.{Hdr, get, set, os_version, width, shown}
use kitsune_ufork.Boot.Header.Numbers.{same_field}
use kitsune_ufork.Boot.Header.Laws.{IsHdr, set-IsHdr, get-set}
use kitsune_ufork.Boot.Fields.{
  shl, pack_version, pack_level, scan_digits, scan_int, scan_dots, scan_dash, print_version,
  print_level, starts_digit, two_digits, load_props, load_prop, Junk,
}
use kitsune_ufork.Boot.Fields.Or.{bit_or-disjoint}

pack_version_lem :
    (v old : ℕ)
    → v < 2 ^ 32
    → pack_version (v / 2048 / 2 ^ 14 % 128) (v / 2048 / 2 ^ 7 % 128) (v / 2048 % 128) old
      ≡ v / 2048 * 2048 + old % 2048
unfolding pack_version
pack_version_lem v old h =
    let a = v / 2048 / 2 ^ 14 % 128 in
    let b = v / 2048 / 2 ^ 7 % 128 in
    let c = v / 2048 % 128 in
    let e1 : shl a 14 ≡ a * 2 ^ 14 = omega arith in
    let e2 : shl b 7 ≡ b * 2 ^ 7 = omega arith in
    let o1 : bit_or (a * 2 ^ 14) (b * 2 ^ 7) ≡ (a * 2 ^ 7 + b) * 2 ^ 7 =
      bit_or-disjoint 14 a (b * 2 ^ 7) (omega arith) ∙ omega arith in
    let o2 : bit_or ((a * 2 ^ 7 + b) * 2 ^ 7) c ≡ v / 2048 =
      bit_or-disjoint 7 (a * 2 ^ 7 + b) c (omega arith) ∙ omega arith in
    let e3 : shl (v / 2048) 11 ≡ v / 2048 * 2 ^ 11 = omega arith in
    rw (e1, e2, o1, o2, e3) (bit_or-disjoint 11 (v / 2048) (old % 2048) (omega arith))

pack_level_lem :
    (v old : ℕ)
    → v < 2 ^ 32
    → old / 2048 ≡ v / 2048
    → pack_level (v % 2048 / 16 + 2000) (v % 2048 % 16) old ≡ v
unfolding pack_level
pack_level_lem v old h k =
    let y = v % 2048 / 16 in
    let e1 : shl (old / 2048) 11 ≡ v / 2048 * 2 ^ 11 = omega (arith, k) in
    let e2 : shl ((y + 2000 + 2 ^ 32 - 2000) % 2 ^ 32) 4 ≡ y * 2 ^ 4 = omega arith in
    let o : bit_or (v / 2048 * 2 ^ 11) (y * 2 ^ 4) ≡ (v / 2048 * 2 ^ 7 + y) * 2 ^ 4 =
      bit_or-disjoint 11 (v / 2048) (y * 2 ^ 4) (omega arith) ∙ omega arith in
    rw (e1, e2, o)
      (bit_or-disjoint 4 (v / 2048 * 2 ^ 7 + y) (v % 2048 % 16) (omega arith) ∙ omega arith)

one_digit :
    (val d : ℕ) (t : Text)
    → d < 10
    → scan_digits val ((d + b'0') ∷ t) ≡ scan_digits (val * 10 + d) t
unfolding scan_digits
one_digit val d t h = ground arith

scan_digits-print :
    (fuel n : ℕ) (t : Text) → n < fuel → scan_digits 0 (print fuel n ++ t) ≡ scan_digits n t
unfolding print
scan_digits-print zero n t h = absurd (omega arith)
scan_digits-print (suc fuel) n t h = elim (Bool-cases (ltb n 10)) [
  | inl small ↦
      rw small (one_digit 0 n t (ground arith) ∙ ap (λ (k : ℕ). scan_digits k t) (omega arith))
  | inr big ↦
      let e : n / 10 * 10 + n % 10 ≡ n = omega arith in
      rw (big, append_assoc (print fuel (n / 10)) ((n % 10 + b'0') ∷ []) t)
        (scan_digits-print fuel (n / 10) ((n % 10 + b'0') ∷ t) (ground (arith, big))
          ∙ one_digit (n / 10) (n % 10) t (omega arith)
          ∙ ap (λ (k : ℕ). scan_digits k t) e)
]

print_starts :
    (fuel n : ℕ) → n < fuel → (d : ℕ) × ((u : Text) × ((d < 10) × (print fuel n ≡ (d + b'0') ∷ u)))
unfolding print
print_starts zero n h = absurd (omega arith)
print_starts (suc fuel) n h = elim (Bool-cases (ltb n 10)) [
  | inl small ↦ (n, ([], (ground arith, rw small refl)))
  | inr big ↦
      let (d, (u, (k, e))) = print_starts fuel (n / 10) (ground (arith, big)) in
      (d, (u ++ (n % 10 + b'0') ∷ [], (k, rw (big, e) refl)))
]

scan_digits_end : (n : ℕ) (t : Text) → starts_digit t ≡ false → scan_digits n t ≡ (n, t)
unfolding scan_digits
scan_digits_end n [] h = refl
scan_digits_end n (c ∷ t) h = rw h refl

scan_int_digit :
    (d n : ℕ) (u t : Text)
    → d < 10
    → n < 2 ^ 32
    → scan_digits 0 ((d + b'0') ∷ u) ≡ (n, t)
    → scan_int ((d + b'0') ∷ u) ≡ some (n, t)
unfolding scan_int isspace
scan_int_digit d n u t h k e = let fits : n % 2 ^ 32 ≡ n = omega arith in ground (arith, e, fits)

scan_int-to_string :
    (n : ℕ) (t : Text)
    → n < 2 ^ 32
    → starts_digit t ≡ false
    → scan_int (to_string n ++ t) ≡ some (n, t)
unfolding to_string
scan_int-to_string n t h k =
    let (d, (u, (small, e))) = print_starts (suc n) n (omega arith) in
    let read = scan_digits-print (suc n) n t (omega arith) ∙ scan_digits_end n t k in
    rw e (scan_int_digit d n (u ++ t) t small h (rw e at read))

scan_int-two_digits : (m : ℕ) → m < 16 → scan_int (two_digits m) ≡ some (m, [])
unfolding to_string
scan_int-two_digits m h = elim (Bool-cases (ltb m 10)) [
  | inr big ↦ rw big (rw (append-nil (to_string m)) at (scan_int-to_string m [] (omega arith) refl))
  | inl small ↦
      let read = scan_digits-print (suc m) m [] (omega arith) ∙ scan_digits_end m [] refl in
      rw small (
        scan_int_digit 0 m (to_string m) [] (omega arith) (omega arith)
          (one_digit 0 0 (to_string m) (omega arith) ∙ (rw (append-nil (print (suc m) m)) at read)))
]

scan_dots_lem :
    (v : ℕ) (junk : Junk)
    → v < 2 ^ 32
    → scan_dots (print_version v) junk
      ≡ (v / 2048 / 2 ^ 14 % 128, v / 2048 / 2 ^ 7 % 128, v / 2048 % 128)
unfolding scan_dots print_version
scan_dots_lem v junk h =
    let a = v / 2048 / 2 ^ 14 % 128 in
    let b = v / 2048 / 2 ^ 7 % 128 in
    let c = v / 2048 % 128 in
    let e1 =
      scan_int-to_string a (b'.' ∷ (to_string b ++ (b'.' ∷ to_string c))) (omega arith) refl in
    let e2 = scan_int-to_string b (b'.' ∷ to_string c) (omega arith) refl in
    let e3 = rw (append-nil (to_string c)) at (scan_int-to_string c [] (omega arith) refl) in
    ground (arith, e1, e2, e3)

scan_dash_lem :
    (v y m : ℕ)
    → v < 2 ^ 32
    → scan_dash (print_level v) (y, m) ≡ (v % 2048 / 16 + 2000, v % 2048 % 16)
unfolding scan_dash print_level
scan_dash_lem v y m h =
    let n = v % 2048 / 16 + 2000 in
    let e1 = scan_int-to_string n (b'-' ∷ two_digits (v % 2048 % 16)) (omega arith) refl in
    let e2 = scan_int-two_digits (v % 2048 % 16) (omega arith) in ground (arith, e1, e2)

set_version :
    (w : ℕ) (h : Hdr)
    → IsHdr h
    → w < 2 ^ 32
    → shown h.kind os_version ≡ true
    → get os_version (set os_version w h) ≡ w
unfolding same_field width
set_version w h i k s = ground (arith, get-set os_version os_version w h i k refl, s)

loads_version :
    (junk : Junk) (value : Text) (h : Hdr)
    → load_prop junk (codes "os_version") value h
      ≡ set os_version
          (pack_version
            (scan_dots value junk).0
            (scan_dots value junk).1
            (scan_dots value junk).2
            (get os_version h))
          h
unfolding load_prop str_eql
loads_version junk value h = refl

loads_level :
    (junk : Junk) (value : Text) (h : Hdr)
    → load_prop junk (codes "os_patch_level") value h
      ≡ set os_version
          (pack_level
            (scan_dash value (junk.0, junk.1)).0
            (scan_dash value (junk.0, junk.1)).1
            (get os_version h))
          h
unfolding load_prop str_eql
loads_level junk value h = refl

-- Reading the two lines that dump_hdr_file prints for a version word, `os_version` and
-- `os_patch_level`, gives the same word, in every header that has one, whatever it was before and
-- whatever the uninitialised variables hold.
pub load_props-print_version :
    (v : ℕ) (junk : Junk) (h : Hdr)
    → IsHdr h
    → v < 2 ^ 32
    → shown h.kind os_version ≡ true
    → get os_version (
        load_props junk
          ((codes "os_version", print_version v) ∷ (codes "os_patch_level", print_level v) ∷ [])
          h)
      ≡ v
unfolding load_props set
load_props-print_version v junk h i k s =
    let w = v / 2048 * 2048 + get os_version h % 2048 in
    let first : load_prop junk (codes "os_version") (print_version v) h ≡ set os_version w h =
      rw (loads_version junk (print_version v) h, scan_dots_lem v junk k)
        (ap (λ (x : ℕ). set os_version x h) (pack_version_lem v (get os_version h) k)) in
    let read = set_version w h i (omega arith) s in
    let packed = pack_level_lem v w k (omega arith) in
    rw
      (
        first,
        loads_level junk (print_level v) (set os_version w h),
        scan_dash_lem v junk.0 junk.1 k,
        read,
        packed,
      )
      (set_version v (set os_version w h) (set-IsHdr os_version w h i) k s)
