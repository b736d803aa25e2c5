-- ===== src/Vfs/Init.antt =====
-- The start of the virtual file system: `vfs_init` of src/kernel/vfs.cpp.
use vortex_os.Base.{ℕ, Option, none, some, Text, codes}
use vortex_os.Vfs.{
  directory, char_device, VfsOps, tmp_dir_ops, dev_dir_ops, dev_null_ops, dev_zero_ops,
  dev_console_ops, dev_rtc_ops, Fs, set_node, create_node, dir_add_child, mount_add,
}
use vortex_os.Vfs.Files.{rtc_size}

-- The lambda `make_dev`.
unfoldable pub make_dev : Text → VfsOps → (size perms : ℕ) → Fs → Option ℕ × Fs
make_dev name ops size perms s =
    let (n, s1) = create_node name char_device s in
    elim n [
      | none ↦ (none, s1)
      | some i ↦ (
        some i,
        set_node i (record (s1.nodes i) { ops = some ops; size = size; permissions = perms }) s1,
      )
    ]

-- `if (dev) dir_add_child(dev_root, dev);`
unfoldable pub add_dev : (dev_root : ℕ) → Option ℕ → Fs → Fs
add_dev dev_root none s = s
add_dev dev_root (some i) s = dir_add_child dev_root i s

-- The part of `vfs_init` that fills the devfs root and mounts it.
unfoldable pub init_devices : (dev_mount_point dev_root : ℕ) → Fs → Fs
init_devices dev_mount_point dev_root s =
    let (null_dev, s1) = make_dev (codes "null") dev_null_ops 0 438 s in
    let (zero_dev, s2) = make_dev (codes "zero") dev_zero_ops 0 438 s1 in
    let (console_dev, s3) = make_dev (codes "console") dev_console_ops 0 438 s2 in
    let (rtc_dev, s4) = make_dev (codes "rtc") dev_rtc_ops rtc_size 420 s3 in
    let s5 =
      add_dev dev_root rtc_dev
        (add_dev dev_root console_dev (add_dev dev_root zero_dev (add_dev dev_root null_dev s4))) in
    (mount_add dev_mount_point dev_root s5).1

-- The part behind the root node.
unfoldable pub init_dev : (root : ℕ) → Fs → Fs
init_dev root s =
    let (dev_mount_point, s1) = create_node (codes "dev") directory s in
    elim dev_mount_point [
      | none ↦ s1
      | some d ↦
          let s2 =
            dir_add_child root d (set_node d (record (s1.nodes d) { ops = some tmp_dir_ops }) s1) in
          let (dev_root, s3) = create_node (codes "dev") directory s2 in
          elim dev_root [
            | none ↦ s3
            | some r ↦
                init_devices d r (set_node r (record (s3.nodes r) { ops = some dev_dir_ops }) s3)
          ]
    ]

unfoldable pub vfs_init : Fs → Fs
vfs_init s =
    let (root, s1) = create_node (codes "/") directory s in
    let s2 = record s1 { root = root } in
    elim root [
      | none ↦ s2
      | some r ↦
          init_dev r
            (set_node r (record (s2.nodes r) { ops = some tmp_dir_ops; parent = some r }) s2)
    ]
