-- ===== src/Vfs/Files.antt =====
-- Reading and writing files and devices in src/kernel/vfs.cpp, for nodes and buffers that are not
-- null. A buffer that is read into comes back with the count.
pub mod Content
use vortex_os.Base.{
  ℕ, ◌+◌, ◌-◌, ◌%◌, ◌^◌, Bool, true, false, ◌&&◌, Option, none, some, List, ◌==◌, if◌then◌else◌,
  ltb, leb, update, Text, take,
}
use vortex_os.Mm.{page_size, pmm_alloc_page, pmm_get_hhdm_offset, word}
use vortex_os.Net.{Bytes}
use vortex_os.Vfs.{VfsNode, Fs, set_node}

-- A pointer as an address.
abbrev pub address_of : Option ℕ → ℕ
address_of none = 0
address_of (some p) = p

-- `for (i = 0; i < n; ++i) dst[i] = src[i];` for a buffer.
abbrev pub copy_to : (n : ℕ) → Bytes → Bytes → Bytes
copy_to n src buffer = λ k. if ltb k n then src k else buffer k

unfoldable pub tmpfs_file_read : ℕ → (offset size : ℕ) → Bytes → Fs → ℕ × Bytes
tmpfs_file_read i offset size buffer s =
    let n = s.nodes i in
    let available = n.size - offset in
    let to_read = if ltb size available then size else available in
    if leb n.size offset
    then (0, buffer)
    else (to_read, copy_to to_read (λ k. s.memory (address_of n.private_data + offset + k)) buffer)

-- The first part of `tmpfs_file_write`: a page for a file that has none.
unfoldable pub ensure_page : ℕ → Fs → Bool × Fs
ensure_page i s = elim (s.nodes i).private_data [
  | some p ↦ (true, s)
  | none ↦
      let (page, pmm1) = pmm_alloc_page s.pmm in
      let s1 = record s { pmm = pmm1 } in
      if page == 0 then (false, s1) else (
        true,
        set_node i
            (record (s1.nodes i) {
              private_data = some ((page + pmm_get_hhdm_offset s.pmm) % word);
            })
            s1,
      )
]

-- The range of memory from `from` up to `to` set to what `src` gives.
abbrev pub write_range : (from to : ℕ) → (ℕ → ℕ) → Bytes → Bytes
write_range from to src m = λ a. if leb from a && ltb a to then src a else m a

-- The rest of it.
unfoldable pub write_page : ℕ → (offset size : ℕ) → Bytes → Fs → ℕ × Fs
write_page i offset size buffer s =
    let n = s.nodes i in
    let base = address_of n.private_data in
    let end = (offset + size) % word in
    let too_long = ltb page_size end in
    let end1 = if too_long then page_size else end in
    let size1 =
      if too_long then (if ltb offset page_size then page_size - offset else 0) else size in
    let m1 = write_range (base + n.size) (base + offset) (λ a. 0) s.memory in
    let m2 =
      write_range (base + offset) (base + offset + size1) (λ a. buffer (a - (base + offset))) m1 in
    (
      size1,
      set_node i (record n { size = if ltb n.size end1 then end1 else n.size })
          (record s { memory = m2 }),
    )

unfoldable pub tmpfs_file_write : ℕ → (offset size : ℕ) → Bytes → Fs → ℕ × Fs
tmpfs_file_write i offset size buffer s =
    let (ok, s1) = ensure_page i s in if ok then write_page i offset size buffer s1 else (0, s1)

unfoldable pub dev_null_read : (offset size : ℕ) → Bytes → ℕ × Bytes
dev_null_read offset size buffer = (0, buffer)

unfoldable pub dev_null_write : (offset size : ℕ) → Bytes → ℕ
dev_null_write offset size buffer = size

unfoldable pub dev_zero_read : (offset size : ℕ) → Bytes → ℕ × Bytes
dev_zero_read offset size buffer = (size, copy_to size (λ k. 0) buffer)

unfoldable pub dev_zero_write : (offset size : ℕ) → Bytes → ℕ
dev_zero_write offset size buffer = size

unfoldable pub dev_console_read : (offset size : ℕ) → Bytes → ℕ × Bytes
dev_console_read offset size buffer = (0, buffer)

-- The bytes of `RtcTime`: the year 2026 in two bytes, then month, day, hour, minute, second and
-- a byte of padding.
abbrev pub rtc_time : ℕ → ℕ
rtc_time k =
    if k == 0
    then 234
    else if k == 1
    then 7
    else if k == 2
    then 6
    else if k == 3
    then 11
    else if k == 4
    then 12
    else 0

abbrev pub rtc_size : ℕ
rtc_size = 8

unfoldable pub dev_rtc_read : (offset size : ℕ) → Bytes → ℕ × Bytes
dev_rtc_read offset size buffer =
    let copy_size = if ltb size rtc_size then size else rtc_size in
    if ltb 0 offset then (0, buffer) else (copy_size, copy_to copy_size rtc_time buffer)

unfoldable pub dev_rtc_write : (offset size : ℕ) → Bytes → ℕ
dev_rtc_write offset size buffer = size
