-- ===== src/Vfs/Tests.antt =====
-- Runs of vfs.cpp, and its theorems at them.
use vortex_os.Base.{
  ℕ, zero, suc, ◌+◌, ◌≤◌, ◌<◌, ◌≡◌, ◌≢◌, refl, ◌⊎◌, true, false, none, some, List, [], ◌∷◌, ◌++◌,
  arith, ◌==◌, if◌then◌else◌, has, length, Text, codes, ap, ==→eq, find_link,
}
use vortex_os.Mm.{Pmm, page_size, pmm_alloc_page}
use vortex_os.Net.{Bytes}
use vortex_os.Vfs.{
  can_open, VfsNode, file, directory, tmp_dir_ops, tmp_file_ops, Fs, str_cmp, char_difference,
  str_cpy, copy_chars, create_node, dir_add_child, dir_open, mount_add, resolve_in, mount_resolve,
  skip_slashes, next_component, enter, resolve_from, resolve_path, vfs_open, vfs_mkdir,
}
use vortex_os.Vfs.Init.{vfs_init, init_dev, init_devices, make_dev, add_dev}
use vortex_os.Vfs.Files.{tmpfs_file_read, tmpfs_file_write}
use vortex_os.Vfs.Files.Content.{
  IsPageFor, IsWritten, tmpfs_file_write-cases, tmpfs-written_back, tmpfs_file_write-past_page,
}
use vortex_os.Vfs.Paths.{IsComponent, NoSlash, join, walk, vfs_open-walk, resolve_path-cut}
use vortex_os.Vfs.Dirs.{IsDir, IsPlain, IsMadeDir, dir_open-cases, vfs_mkdir-cases}

abbrev no_memory : Pmm
no_memory = record {
  frames = λ p. record {
    order = 0;
    flags = record { free = false; used = false; reserved = true; poison = false; pinned = false };
    refcount = 0;
    numa_node = 0;
    private_data = none;
    next = none;
    prev = none;
  };
  frames_addr = 0;
  total_pages = 0;
  free_pages = 0;
  hhdm_offset = 0;
  free_lists = λ o. none;
}

abbrev no_node : VfsNode
no_node = record {
  name = [];
  kind = file;
  size = 0;
  uid = 0;
  gid = 0;
  permissions = 0;
  ops = none;
  private_data = none;
  parent = none;
  children = none;
  next_sibling = none;
}

abbrev blank : Fs
blank = record {
  nodes = λ x. no_node;
  created = 0;
  mounts = [];
  root = none;
  supply = 1 ∷ 2 ∷ 3 ∷ 4 ∷ 5 ∷ 6 ∷ 7 ∷ 8 ∷ 9 ∷ [];
  pmm = no_memory;
  memory = λ a. 0;
}

-- After the start, 1 is the root, 2 the mount point, 3 the root of devfs and 4 to 7 its devices.
finds_null : vfs_open (codes "/dev/null") (vfs_init blank) ≡ some 4
unfolding vfs_init init_dev init_devices make_dev add_dev create_node dir_add_child mount_add
    vfs_open resolve_path resolve_from skip_slashes next_component enter str_cmp char_difference
    dir_open find_link mount_resolve resolve_in str_cpy copy_chars
finds_null = refl

-- The parent of the devfs root is the mount point below the root, and not the root.
dot_dot_of_dev : vfs_open (codes "/dev/..") (vfs_init blank) ≡ some 2
unfolding vfs_init init_dev init_devices make_dev add_dev create_node dir_add_child mount_add
    vfs_open resolve_path resolve_from skip_slashes next_component enter str_cmp char_difference
    dir_open find_link mount_resolve resolve_in str_cpy copy_chars
dot_dot_of_dev = refl

-- The node 3 is a file of 10 bytes with its page at 8192; the directory 1 has the child 2, "a".
abbrev small : Fs
small = record blank {
  nodes = λ x.
      if x == 3
      then record no_node { ops = some tmp_file_ops; size = 10; private_data = some 8192 }
      else if x == 1
      then record no_node { kind = directory; ops = some tmp_dir_ops; children = some 2 }
      else if x == 2
      then record no_node {
        kind = directory;
        ops = some tmp_dir_ops;
        name = 97 ∷ [];
        parent = some 1;
      }
      else no_node;
  created = 3;
  root = some 1;
  supply = 4 ∷ [];
}

small-IsDir : IsDir small 1 (2 ∷ [])
small-IsDir = record {
  linked = (refl, refl);
  distinct = (refl, tt);
  counted = omega arith;
  texts = λ x h. ground (arith, ==→eq 2 x);
}

b-IsPlain : IsPlain (98 ∷ [])
unfolding str_cmp char_difference
b-IsPlain = record { text = (omega arith, tt); not_dot = refl; not_dot_dot = refl }

ab-IsComponent : IsComponent (97 ∷ 98 ∷ [])
ab-IsComponent = record { filled = omega arith; no_slash = (refl, (refl, tt)); short = omega arith }

vfs_open-walk_example :
    (vfs_open (join ((97 ∷ 98 ∷ []) ∷ (97 ∷ 98 ∷ []) ∷ [])) small
      ≡ walk small 1 ((97 ∷ 98 ∷ []) ∷ (97 ∷ 98 ∷ []) ∷ []))
    × (vfs_open ((97 ∷ 98 ∷ []) ++ join ((97 ∷ 98 ∷ []) ∷ [])) small
        ≡ walk small 1 ((97 ∷ 98 ∷ []) ∷ (97 ∷ 98 ∷ []) ∷ []))
vfs_open-walk_example =
    vfs_open-walk 1 (97 ∷ 98 ∷ []) ((97 ∷ 98 ∷ []) ∷ []) small refl ab-IsComponent
      (ab-IsComponent, tt)

-- A name of `n` letters.
abbrev letters : ℕ → Text
letters zero = []
letters (suc n) = 97 ∷ letters n

letters-NoSlash : (n : ℕ) → NoSlash (letters n)
letters-NoSlash zero = tt
letters-NoSlash (suc n) = (refl, letters-NoSlash n)

length-letters : (n : ℕ) → length (letters n) ≡ n
length-letters zero = refl
length-letters (suc n) = ap suc (length-letters n)

resolve_path-cut_example :
    resolve_path 1 (letters 255 ++ ((97 ∷ 98 ∷ []) ++ join [])) small
    ≡ walk small 1 (letters 255 ∷ (97 ∷ 98 ∷ []) ∷ [])
resolve_path-cut_example =
    resolve_path-cut 1 (letters 255) (97 ∷ 98 ∷ []) [] small (letters-NoSlash 255)
      (length-letters 255) ab-IsComponent tt

abbrev bytes : Bytes
bytes k = k + 1

tmpfs_file_write-cases_example :
    (((small.nodes 3).private_data ≡ none)
      × ((pmm_alloc_page small.pmm).0 ≡ 0)
      × ((tmpfs_file_write 3 12 5 bytes small).0 ≡ 0)
      × ((tmpfs_file_write 3 12 5 bytes small).1.nodes ≡ small.nodes))
    ⊎ ((p : ℕ) × IsPageFor small 3 p
        × IsWritten small 3 p 12 5 bytes (tmpfs_file_write 3 12 5 bytes small))
tmpfs_file_write-cases_example =
    tmpfs_file_write-cases 3 12 5 bytes small (omega arith) (omega arith) (omega arith)

tmpfs-written_back_example :
    let (n, s') = tmpfs_file_write 3 12 5 bytes small in
    let (m, read) = tmpfs_file_read 3 12 5 (λ k. 0) s' in
    (n ≤ m) × (m ≤ 5) × ((k : ℕ) → k < n → read k ≡ bytes k)
tmpfs-written_back_example =
    tmpfs-written_back 3 8192 12 5 bytes (λ k. 0) small refl (omega arith) (omega arith)
      (omega arith)

tmpfs_file_write-past_page_example :
    let (n, s') = tmpfs_file_write 3 5000 5 bytes small in
    (n ≡ 0) × (s'.memory (8192 + 4100) ≡ 0) × ((s'.nodes 3).size ≡ page_size)
tmpfs_file_write-past_page_example =
    tmpfs_file_write-past_page 3 8192 5000 5 4100 bytes small refl (omega arith) (omega arith)
      (omega arith) (omega arith)

dir_open-cases_example :
    ((dir_open 1 (98 ∷ []) small ≡ none)
      × ((x : ℕ) → has x (2 ∷ []) ≡ true → (small.nodes x).name ≢ 98 ∷ []))
    ⊎ ((x : ℕ) × (dir_open 1 (98 ∷ []) small ≡ some x)
        × (has x (2 ∷ []) ≡ true)
        × ((small.nodes x).name ≡ 98 ∷ []))
dir_open-cases_example = dir_open-cases 1 (98 ∷ []) small (2 ∷ []) small-IsDir b-IsPlain

small-fresh : (d : ℕ) (rest : List ℕ) → small.supply ≡ d ∷ rest → (d ≢ 1) × (has d (2 ∷ []) ≡ false)
small-fresh d rest e = (λ q. cc, ground arith)

vfs_mkdir-cases_example :
    ((vfs_mkdir 1 (98 ∷ []) small ≡ (none, small))
      × ((small.supply ≡ [])
          ⊎ ((can_open (small.nodes 1).ops ≡ true)
              × ((x : ℕ) × (has x (2 ∷ []) ≡ true) × ((small.nodes x).name ≡ 98 ∷ [])))))
    ⊎ ((d : ℕ) × (s' : Fs) × (vfs_mkdir 1 (98 ∷ []) small ≡ (some d, s'))
        × IsMadeDir small 1 d (98 ∷ []) (2 ∷ []) s')
vfs_mkdir-cases_example =
    vfs_mkdir-cases 1 (98 ∷ []) small (2 ∷ []) small-IsDir refl b-IsPlain (omega arith) small-fresh
