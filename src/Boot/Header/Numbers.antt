-- ===== src/Boot/Header/Numbers.antt =====
-- The fields of native/src/boot/bootimg.hpp, numbered, so that a test can run through them all.
use kitsune_ufork.Common.{ℕ, ◌≡◌, refl, Bool, true, ◌&&◌, arith, ◌==◌, if◌then◌else◌}
use kitsune_ufork.Boot.Header.{
  Field, kernel_size, ramdisk_size, second_size, page_size, header_version, extra_size, os_version,
  recovery_dtbo_size, recovery_dtbo_offset, header_size, dtb_size, signature_size,
  vendor_ramdisk_table_size, vendor_ramdisk_table_entry_num, vendor_ramdisk_table_entry_size,
  bootconfig_size,
}

unfoldable pub number_of : Field → ℕ
number_of kernel_size = 0
number_of ramdisk_size = 1
number_of second_size = 2
number_of page_size = 3
number_of header_version = 4
number_of extra_size = 5
number_of os_version = 6
number_of recovery_dtbo_size = 7
number_of recovery_dtbo_offset = 8
number_of header_size = 9
number_of dtb_size = 10
number_of signature_size = 11
number_of vendor_ramdisk_table_size = 12
number_of vendor_ramdisk_table_entry_num = 13
number_of vendor_ramdisk_table_entry_size = 14
number_of bootconfig_size = 15

abbrev pub of_number : ℕ → Field
of_number n =
    if n == 0
    then kernel_size
    else if n == 1
    then ramdisk_size
    else if n == 2
    then second_size
    else if n == 3
    then page_size
    else if n == 4
    then header_version
    else if n == 5
    then extra_size
    else if n == 6
    then os_version
    else if n == 7
    then recovery_dtbo_size
    else if n == 8
    then recovery_dtbo_offset
    else if n == 9
    then header_size
    else if n == 10
    then dtb_size
    else if n == 11
    then signature_size
    else if n == 12
    then vendor_ramdisk_table_size
    else if n == 13
    then vendor_ramdisk_table_entry_num
    else if n == 14
    then vendor_ramdisk_table_entry_size
    else bootconfig_size

pub of_number_lem : (f : Field) → of_number (number_of f) ≡ f
unfolding number_of
of_number_lem kernel_size = refl
of_number_lem ramdisk_size = refl
of_number_lem second_size = refl
of_number_lem page_size = refl
of_number_lem header_version = refl
of_number_lem extra_size = refl
of_number_lem os_version = refl
of_number_lem recovery_dtbo_size = refl
of_number_lem recovery_dtbo_offset = refl
of_number_lem header_size = refl
of_number_lem dtb_size = refl
of_number_lem signature_size = refl
of_number_lem vendor_ramdisk_table_size = refl
of_number_lem vendor_ramdisk_table_entry_num = refl
of_number_lem vendor_ramdisk_table_entry_size = refl
of_number_lem bootconfig_size = refl

unfoldable pub same_field : Field → Field → Bool
unfolding number_of
same_field f g = number_of f == number_of g

-- A test of every field.
unfoldable pub every_field : (Field → Bool) → Bool
every_field p =
    (p kernel_size && (p ramdisk_size && (p second_size && p page_size)))
    && ((p header_version && (p extra_size && (p os_version && p recovery_dtbo_size)))
        && ((p recovery_dtbo_offset && (p header_size && (p dtb_size && p signature_size)))
            && ((p vendor_ramdisk_table_size && p vendor_ramdisk_table_entry_num)
                && (p vendor_ramdisk_table_entry_size && p bootconfig_size))))

pub every_field-at : (p : Field → Bool) (f : Field) → every_field p ≡ true → p f ≡ true
unfolding every_field
every_field-at p kernel_size h = ground (arith, h)
every_field-at p ramdisk_size h = ground (arith, h)
every_field-at p second_size h = ground (arith, h)
every_field-at p page_size h = ground (arith, h)
every_field-at p header_version h = ground (arith, h)
every_field-at p extra_size h = ground (arith, h)
every_field-at p os_version h = ground (arith, h)
every_field-at p recovery_dtbo_size h = ground (arith, h)
every_field-at p recovery_dtbo_offset h = ground (arith, h)
every_field-at p header_size h = ground (arith, h)
every_field-at p dtb_size h = ground (arith, h)
every_field-at p signature_size h = ground (arith, h)
every_field-at p vendor_ramdisk_table_size h = ground (arith, h)
every_field-at p vendor_ramdisk_table_entry_num h = ground (arith, h)
every_field-at p vendor_ramdisk_table_entry_size h = ground (arith, h)
every_field-at p bootconfig_size h = ground (arith, h)
