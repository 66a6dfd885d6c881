-- ===== src/Nodes/Mount/Places.antt =====
-- Where the mounts of native/src/core/module.cpp go.
use kitsune_ufork.Common.{
  Bool, true, false, not, ◌&&◌, ◌||◌, ◌≡◌, refl, Option, none, some, List, [], ◌∷◌, ◌++◌, Text,
  codes, inl, inr, Bool-cases, arith, all, all-append, if◌then◌else◌,
}
use kitsune_ufork.Nodes.{DType, dir_type, reg, lnk, chr, null_device, whiteout}
use kitsune_ufork.Nodes.Prepare.{
  Real, real, Reals, from_module, magisk, zygisk, Tree, inner, tmpfs, leaf, Trees, no_trees, tree,
  is_wht, is_lnk, in_dir, listing, cannot_mount, prepare_root,
}
use kitsune_ufork.Nodes.Prepare.Upgrade.{covers, covered}
use kitsune_ufork.Nodes.Prepare.Ready.{ready, all_ready, all_fresh, prepare_root-all_ready}
use kitsune_ufork.Nodes.Mount.{
  NodePath, Place, node_path, worker_path, module_root, module_mnt, magisk_file, Call, copy_link,
  symlink, mkdir, create, read_only, bind, clone_attr, Bins, create_and_mount, mount_module,
  mount_magisk, mount_zygisk, mount_tmpfs, mount_tree, mount_all, is_dir_type, last_name,
}

-- The real file at a path, and what is in a directory.
abbrev pub dir_at : NodePath → Reals → Reals
dir_at [] top = top
dir_at (n ∷ p) top = listing (in_dir n (dir_at p top))

abbrev pub real_at : NodePath → Reals → Option Real
real_at [] top = none
real_at (n ∷ p) top = in_dir n (dir_at p top)

-- It is there, and no link.
abbrev pub is_target : Option Real → Bool
is_target none = false
is_target (some (real t rs)) = not (is_lnk t)

abbrev pub at_target : Reals → Place → Bool
at_target top (node_path p) = is_target (real_at p top)
at_target top (worker_path p) = true
at_target top (module_root m prefix p) = false
at_target top (module_mnt m prefix p) = false
at_target top (magisk_file n) = false

abbrev pub in_worker : Place → Bool
in_worker (worker_path p) = true
in_worker (node_path p) = false
in_worker (module_root m prefix p) = false
in_worker (module_mnt m prefix p) = false
in_worker (magisk_file n) = false

-- The worker directory, or the module's own file.
abbrev pub in_worker_or_module : Place → Bool
in_worker_or_module (worker_path p) = true
in_worker_or_module (node_path p) = false
in_worker_or_module (module_root m prefix p) = true
in_worker_or_module (module_mnt m prefix p) = false
in_worker_or_module (magisk_file n) = false

-- Links are made by copying only in the worker directory, attributes are set there or on the
-- module's file, and everything else goes to the worker directory or over a real file.
abbrev pub is_safe : Reals → Call → Bool
is_safe top (copy_link src dest) = in_worker dest
is_safe top (symlink text dest) = at_target top dest
is_safe top (mkdir dest) = at_target top dest
is_safe top (create dest) = at_target top dest
is_safe top (read_only dest) = at_target top dest
is_safe top (bind reason src dest) = at_target top dest
is_safe top (clone_attr src dest) = in_worker_or_module dest

create_in_worker :
    (top : Reals) (reason : Text) (src : Place) (ro : Bool) (t : DType) (p : NodePath)
    → all (is_safe top) (create_and_mount reason src ro t (worker_path p)) ≡ true
unfolding create_and_mount
create_in_worker top reason src ro lnk p = refl
create_in_worker top reason src ro dir_type p = ground arith
create_in_worker top reason src ro reg p = ground arith
create_in_worker top reason src ro chr p = refl
create_in_worker top reason src ro null_device p = refl
create_in_worker top reason src ro whiteout p = refl

create_over :
    (top : Reals) (reason : Text) (src : Place) (ro : Bool) (t : DType) (p : NodePath)
    → is_lnk t ≡ false
    → (is_wht t || is_target (real_at p top)) ≡ true
    → all (is_safe top) (create_and_mount reason src ro t (node_path p)) ≡ true
unfolding create_and_mount
create_over top reason src ro lnk p n r = ground (arith, n)
create_over top reason src ro dir_type p n r = ground (arith, r)
create_over top reason src ro reg p n r = ground (arith, r)
create_over top reason src ro chr p n r = refl
create_over top reason src ro null_device p n r = refl
create_over top reason src ro whiteout p n r = refl

-- Whatever may be mounted is no link, and goes over a real file or is a whiteout.
may_mount :
    (found : Option Real) (t : DType)
    → cannot_mount found t ≡ false
    → (is_lnk t ≡ false) × ((is_wht t || is_target found) ≡ true)
unfolding cannot_mount
may_mount none dir_type c = ground (arith, c)
may_mount none reg c = ground (arith, c)
may_mount none lnk c = ground (arith, c)
may_mount none chr c = ground (arith, c)
may_mount none null_device c = ground (arith, c)
may_mount none whiteout c = (refl, refl)
may_mount (some (real there rs)) t c = ground (arith, c)

dir_target :
    (t : DType) (there : Bool) → is_dir_type t ≡ true → (is_wht t || there) ≡ true → there ≡ true
dir_target dir_type there d h = h
dir_target reg there d h = ground (arith, d)
dir_target lnk there d h = ground (arith, d)
dir_target chr there d h = ground (arith, d)
dir_target null_device there d h = ground (arith, d)
dir_target whiteout there d h = ground (arith, d)

append_safe :
    (top : Reals) (xs ys : List Call)
    → all (is_safe top) xs ≡ true
    → all (is_safe top) ys ≡ true
    → all (is_safe top) (xs ++ ys) ≡ true
append_safe top xs ys a b = ground (arith, all-append (is_safe top) xs ys, a, b)

mount_module-worker :
    (top : Reals) (prefix : Bool) (p : NodePath) (m : Text) (t : DType) (e : Bool)
    → all (is_safe top) (mount_module prefix true p m t e) ≡ true
unfolding mount_module
mount_module-worker top prefix p m t e =
    ground (arith, create_in_worker top (codes "module") (module_mnt m prefix p) false t p)

mount_module-over :
    (top : Reals) (prefix : Bool) (p : NodePath) (m : Text) (t : DType) (e : Bool)
    → (is_wht t || is_target (real_at p top)) ≡ true
    → all (is_safe top) (mount_module prefix false p m t e) ≡ true
unfolding mount_module
mount_module-over top prefix p m t e r = ground (arith, r)

mount_magisk-worker :
    (top : Reals) (b : Bins) (p : NodePath) (target : Option Text) (t : DType)
    → all (is_safe top) (mount_magisk b true p target t) ≡ true
unfolding mount_magisk
mount_magisk-worker top b p (some target) t = refl
mount_magisk-worker top b p none t =
    ground (arith, create_in_worker top (codes "magisk") (magisk_file (last_name p)) true t p)

mount_magisk-over :
    (top : Reals) (b : Bins) (p : NodePath) (target : Option Text) (t : DType)
    → is_lnk t ≡ false
    → is_target (real_at p top) ≡ true
    → all (is_safe top) (mount_magisk b false p target t) ≡ true
unfolding mount_magisk
mount_magisk-over top b p (some target) t n r = ground (arith, r)
mount_magisk-over top b p none t n r = ground (
  arith,
  create_over top (codes "magisk") (magisk_file (last_name p)) true t p n (ground (arith, r)),
)

mount_zygisk-worker :
    (top : Reals) (b : Bins) (p : NodePath) (wide : Bool) (t : DType)
    → all (is_safe top) (mount_zygisk b true p wide t) ≡ true
unfolding mount_zygisk
mount_zygisk-worker top b p wide t =
    let bin = if b.is_lp64 && not wide then codes "magisk32" else codes "magisk" in
    let c = create_in_worker top (codes "zygisk") (magisk_file bin) true t p in ground (arith, c)

mount_zygisk-over :
    (top : Reals) (b : Bins) (p : NodePath) (wide : Bool) (t : DType)
    → is_lnk t ≡ false
    → is_target (real_at p top) ≡ true
    → all (is_safe top) (mount_zygisk b false p wide t) ≡ true
unfolding mount_zygisk
mount_zygisk-over top b p wide t n r =
    let bin = if b.is_lp64 && not wide then codes "magisk32" else codes "magisk" in
    let c = create_over top (codes "zygisk") (magisk_file bin) true t p n (ground (arith, r)) in
    ground (arith, c)

mount_tmpfs-safe :
    (top : Reals) (in_tmpfs : Bool) (up p : NodePath) (e r : Bool) (below : List Call)
    → (in_tmpfs || is_target (real_at p top)) ≡ true
    → all (is_safe top) below ≡ true
    → all (is_safe top) (mount_tmpfs in_tmpfs up p e r below) ≡ true
unfolding mount_tmpfs
mount_tmpfs-safe top in_tmpfs up p e r below t s =
    let reason = if r then codes "replace" else codes "move" in
    let end = bind reason (worker_path p) (node_path p) ∷ read_only (node_path p) ∷ [] in
    ground (arith, t, s, all-append (is_safe top) below end)

mutual
  unfolding covers covered mount_tree

  covers-safe :
      (top : Reals) (b : Bins) (prefix : Bool) (up : NodePath) (n : Text) (k : Tree)
      → covers k ≡ true
      → all (is_safe top) (mount_tree b prefix true up n k) ≡ true
  covers-safe top b prefix up n (inner e r ks) c = ground (arith, c)
  covers-safe top b prefix up n (tmpfs t e r ks) c =
      let below = covered-safe top b prefix (n ∷ up) ks c in
      ground (
        arith,
        mount_tmpfs-safe top true up (n ∷ up) e r (mount_all b prefix true (n ∷ up) ks) refl below,
        create_in_worker top (codes "mirror") (node_path (n ∷ up)) false t (n ∷ up),
      )
  covers-safe top b prefix up n (leaf (from_module m) t e) c =
      mount_module-worker top prefix (n ∷ up) m t e
  covers-safe top b prefix up n (leaf (magisk target) t e) c =
      mount_magisk-worker top b (n ∷ up) target t
  covers-safe top b prefix up n (leaf (zygisk wide) t e) c =
      mount_zygisk-worker top b (n ∷ up) wide t

  covered-safe :
      (top : Reals) (b : Bins) (prefix : Bool) (up : NodePath) (ks : Trees)
      → covered ks ≡ true
      → all (is_safe top) (mount_all b prefix true up ks) ≡ true
  covered-safe top b prefix up no_trees c = refl
  covered-safe top b prefix up (tree n k ks) c =
      append_safe top (mount_tree b prefix true up n k) (mount_all b prefix true up ks)
        (covers-safe top b prefix up n k (ground (arith, c)))
        (covered-safe top b prefix up ks (ground (arith, c)))

mutual
  unfolding ready mount_tree

  ready-safe :
      (top : Reals) (b : Bins) (prefix : Bool) (up : NodePath) (n : Text) (k : Tree)
      → ready (real_at (n ∷ up) top) k ≡ true
      → all (is_safe top) (mount_tree b prefix false up n k) ≡ true
  ready-safe top b prefix up n (inner e r ks) c =
      all_ready-safe top b prefix (n ∷ up) ks (ground (arith, c))
  ready-safe top b prefix up n (tmpfs t e r ks) c =
      let (no_link, there) = may_mount (real_at (n ∷ up) top) t (ground (arith, c)) in
      let below = covered-safe top b prefix (n ∷ up) ks (ground (arith, c)) in
      let calls = mount_all b prefix true (n ∷ up) ks in
      elim (Bool-cases (is_dir_type t)) [
        | inl d ↦
            let hit = dir_target t (is_target (real_at (n ∷ up) top)) d there in
            rw d (mount_tmpfs-safe top false up (n ∷ up) e r calls hit below)
        | inr d ↦
            rw d
              (create_over top (codes "mirror") (node_path (n ∷ up)) false t (n ∷ up) no_link there)
      ]
  ready-safe top b prefix up n (leaf (from_module m) t e) c =
      mount_module-over top prefix (n ∷ up) m t e
        (may_mount (real_at (n ∷ up) top) t (ground (arith, c))).1
  ready-safe top b prefix up n (leaf (magisk target) t e) c =
      let (no_link, there) = may_mount (real_at (n ∷ up) top) t (ground (arith, c)) in
      mount_magisk-over top b (n ∷ up) target t no_link (ground (arith, c, there))
  ready-safe top b prefix up n (leaf (zygisk wide) t e) c =
      let (no_link, there) = may_mount (real_at (n ∷ up) top) t (ground (arith, c)) in
      mount_zygisk-over top b (n ∷ up) wide t no_link (ground (arith, c, there))

  all_ready-safe :
      (top : Reals) (b : Bins) (prefix : Bool) (up : NodePath) (ks : Trees)
      → all_ready (dir_at up top) ks ≡ true
      → all (is_safe top) (mount_all b prefix false up ks) ≡ true
  all_ready-safe top b prefix up no_trees c = refl
  all_ready-safe top b prefix up (tree n k ks) c =
      append_safe top (mount_tree b prefix false up n k) (mount_all b prefix false up ks)
        (ready-safe top b prefix up n k (ground (arith, c)))
        (all_ready-safe top b prefix up ks (ground (arith, c)))

-- For a collected tree without tmpfs_nodes, whose whiteouts come from modules, and a partition's
-- root at the path `up`: after `prepare`, every mount, directory, file and link that `mount` makes
-- is in the worker directory, or over a path of the real file system that exists and is no link,
-- and it sets attributes only there or on a module's file.
pub mount_all-prepare_root :
    (top : Reals) (b : Bins) (prefix replace : Bool) (up : NodePath) (ks ks' : Trees)
    → all_fresh ks ≡ true
    → prepare_root replace (dir_at up top) ks ≡ some ks'
    → all (is_safe top) (mount_all b prefix false up ks') ≡ true
mount_all-prepare_root top b prefix replace up ks ks' f e =
    all_ready-safe top b prefix up ks' (prepare_root-all_ready replace (dir_at up top) ks ks' f e)
