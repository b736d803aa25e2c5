-- ===== src/Vfs.antt =====
-- The virtual file system: src/kernel/vfs.cpp, include/vortex/kernel/vfs.hpp. A `VfsNode*` is the
-- number of a node, a null pointer is `none`.
pub mod Files
pub mod Paths
pub mod Dirs
pub mod Init
mod Tests
use vortex_os.Base.{
  ℕ, zero, suc, ◌+◌, ◌-◌, Bool, true, false, not, ◌&&◌, ◌||◌, Option, none, some, List, [], ◌∷◌,
  ◌==◌, if◌then◌else◌, is_none, length, update, find_link, Text, same_text, ◌>>=◌, ℤ, pos, negsuc,
  ltb, leb,
}
use vortex_os.Mm.{Pmm}
use vortex_os.Net.{Bytes}

pub data NodeType : Type 0 where
  file directory char_device block_device pipe socket : NodeType

-- The tables of operations that the file defines.
pub data VfsOps : Type 0 where
  tmp_dir_ops tmp_file_ops dev_dir_ops dev_null_ops dev_zero_ops dev_console_ops dev_rtc_ops :
      VfsOps

pub record VfsNode : Type 0 where
  pub name : Text
  pub kind : NodeType
  pub size : ℕ
  pub uid : ℕ
  pub gid : ℕ
  pub permissions : ℕ
  pub ops : Option VfsOps
  pub private_data : Option ℕ
  pub parent : Option ℕ
  pub children : Option ℕ
  pub next_sibling : Option ℕ

-- A mount: the directory in the parent file system, and the root of the mounted one.
abbrev pub Mount : Type 0
Mount = ℕ × ℕ

-- `supply` has what the calls of `kmalloc` to come return, in this order, a null pointer where it
-- has run out; `created` counts the nodes that were made, and bounds the walks along siblings.
pub record Fs : Type 0 where
  pub nodes : ℕ → VfsNode
  pub created : ℕ
  pub mounts : List Mount
  pub root : Option ℕ
  pub supply : List ℕ
  pub pmm : Pmm
  pub memory : Bytes

abbrev pub set_node : ℕ → VfsNode → Fs → Fs
set_node i n s = record s { nodes = update s.nodes i n }

-- The difference of the first two characters that differ, the closing zero included.
unfoldable pub char_difference : ℕ → ℕ → ℤ
char_difference x y = if leb y x then pos (x - y) else negsuc (y - x - 1)

unfoldable pub str_cmp : Text → Text → ℤ
unfolding char_difference
str_cmp [] [] = pos 0
str_cmp [] (y ∷ b) = char_difference 0 y
str_cmp (x ∷ a) [] = char_difference x 0
str_cmp (x ∷ a) (y ∷ b) = if x == y then str_cmp a b else char_difference x y

abbrev pub is_zero : ℤ → Bool
is_zero (pos zero) = true
is_zero _ = false

unfoldable pub str_len : Text → ℕ
str_len [] = 0
str_len (c ∷ a) = suc (str_len a)

-- `i < max_len - 1`, by the characters that still fit.
unfoldable pub copy_chars : ℕ → Text → Text
copy_chars zero a = []
copy_chars (suc n) [] = []
copy_chars (suc n) (c ∷ a) = c ∷ copy_chars n a

unfoldable pub str_cpy : Text → (max_len : ℕ) → Text
str_cpy src max_len = copy_chars (max_len - 1) src

abbrev pub name_size : ℕ
name_size = 256

abbrev pub new_node : Text → NodeType → VfsNode
new_node name kind = record {
  name = str_cpy name name_size;
  kind = kind;
  size = 0;
  uid = 0;
  gid = 0;
  permissions = 493;
  ops = none;
  private_data = none;
  parent = none;
  children = none;
  next_sibling = none;
}

unfoldable pub create_node : Text → NodeType → Fs → Option ℕ × Fs
create_node name kind s = elim s.supply [
  | [] ↦ (none, s)
  | i ∷ rest ↦ (
    some i,
    record (set_node i (new_node name kind) s) { supply = rest; created = s.created + 1 },
  )
]

unfoldable pub dir_add_child : (parent child : ℕ) → Fs → Fs
dir_add_child parent child s =
    let s1 = set_node child (record (s.nodes child) { parent = some parent }) s in
    let s2 =
      set_node child (record (s1.nodes child) { next_sibling = (s1.nodes parent).children }) s1 in
    set_node parent (record (s2.nodes parent) { children = some child }) s2

abbrev pub dot : Text
dot = 46 ∷ []

abbrev pub dot_dot : Text
dot_dot = 46 ∷ 46 ∷ []

abbrev pub slash : ℕ
slash = 47

abbrev pub parent_or_self : ℕ → Fs → ℕ
parent_or_self i s = elim (s.nodes i).parent [ some p ↦ p | none ↦ i ]

-- `tmpfs_dir_open` and `devfs_dir_open`, which have the same body, for a node and a name that are
-- not null.
unfoldable pub dir_open : ℕ → Text → Fs → Option ℕ
dir_open i name s =
    if is_zero (str_cmp name dot)
    then some i
    else if is_zero (str_cmp name dot_dot)
    then some (parent_or_self i s)
    else find_link (suc s.created) (λ x. (s.nodes x).next_sibling)
        (λ x. is_zero (str_cmp (s.nodes x).name name)) (s.nodes i).children

-- `ops && ops->open`.
abbrev pub can_open : Option VfsOps → Bool
can_open (some tmp_dir_ops) = true
can_open (some dev_dir_ops) = true
can_open _ = false

unfoldable pub mount_add : (mount_point mounted_root : ℕ) → Fs → Bool × Fs
mount_add mount_point mounted_root s = elim s.supply [
  | [] ↦ (false, s)
  | e ∷ rest ↦
      let s1 = record s { supply = rest; mounts = (mount_point, mounted_root) ∷ s.mounts } in
      (
        true,
        set_node mounted_root (record (s1.nodes mounted_root) { parent = some mount_point }) s1,
      )
]

unfoldable pub resolve_in : List Mount → ℕ → ℕ
resolve_in [] i = i
resolve_in ((point, mounted) ∷ l) i = if point == i then mounted else resolve_in l i

unfoldable pub mount_resolve : ℕ → Fs → ℕ
mount_resolve i s = resolve_in s.mounts i

unfoldable pub skip_slashes : Text → Text
skip_slashes [] = []
skip_slashes (c ∷ path) = if c == slash then skip_slashes path else c ∷ path

-- The characters that go into `component`, at most `n`, and the path behind them.
unfoldable pub next_component : ℕ → Text → Text × Text
next_component zero path = ([], path)
next_component (suc n) [] = ([], [])
next_component (suc n) (c ∷ path) =
    let (a, rest) = next_component n path in if c == slash then ([], c ∷ path) else (c ∷ a, rest)

-- The body of the loop for a component.
unfoldable pub enter : ℕ → Text → Fs → Option ℕ
enter i name s =
    if is_zero (str_cmp name dot)
    then some i
    else if is_zero (str_cmp name dot_dot)
    then some (parent_or_self i s)
    else if not (can_open (s.nodes i).ops)
    then none
    else dir_open i name s >>= λ n. some (mount_resolve n s)

-- The loop on fuel: each round takes a character of the path at least.
unfoldable pub resolve_from : ℕ → ℕ → Text → Fs → Option ℕ
resolve_from zero i path s = some i
resolve_from (suc fuel) i path s = elim (skip_slashes path) [
  | [] ↦ some i
  | c ∷ p ↦
      let (name, rest) = next_component (name_size - 1) (c ∷ p) in
      enter i name s >>= λ n. resolve_from fuel n rest s
]

unfoldable pub resolve_path : ℕ → Text → Fs → Option ℕ
resolve_path base path s = resolve_from (suc (length path)) base path s

unfoldable pub vfs_root : Fs → Option ℕ
vfs_root s = s.root

unfoldable pub vfs_open : Text → Fs → Option ℕ
vfs_open path s = s.root >>= λ r. elim path [
  | [] ↦ resolve_path r [] s
  | c ∷ p ↦ if c == slash then resolve_path r p s else resolve_path r (c ∷ p) s
]

-- The walk of `vfs_readdir` along the siblings, on fuel.
unfoldable pub nth_sibling : ℕ → Option ℕ → (index : ℕ) → Fs → Option ℕ
nth_sibling zero child index s = none
nth_sibling (suc fuel) none index s = none
nth_sibling (suc fuel) (some x) zero s = some x
nth_sibling (suc fuel) (some x) (suc index) s = nth_sibling fuel (s.nodes x).next_sibling index s

abbrev pub is_directory : NodeType → Bool
is_directory directory = true
is_directory _ = false

unfoldable pub vfs_readdir : ℕ → (index : ℕ) → Fs → Option ℕ
vfs_readdir dir index s =
    if is_directory (s.nodes dir).kind
    then nth_sibling (suc s.created) (s.nodes dir).children index s
    else none

-- The last part of `vfs_mkdir`.
unfoldable pub make_dir : ℕ → Text → Fs → Option ℕ × Fs
make_dir parent name s =
    let (dir, s1) = create_node name directory s in
    elim dir [
      | none ↦ (none, s1)
      | some d ↦ (
        some d,
        dir_add_child parent d
            (set_node d (record (s1.nodes d) { ops = (s1.nodes parent).ops }) s1),
      )
    ]

unfoldable pub vfs_mkdir : ℕ → Text → Fs → Option ℕ × Fs
vfs_mkdir parent name s =
    if not (is_directory (s.nodes parent).kind)
    then (none, s)
    else if can_open (s.nodes parent).ops && not (is_none (dir_open parent name s))
    then (none, s)
    else make_dir parent name s
