-- ===== src/Vfs/Files/Content.antt =====
-- A file of tmpfs as a sequence of bytes that holds at most a page.
use vortex_os.Base.{
  ℕ, ◌+◌, ◌-◌, ◌%◌, ◌≤◌, ◌<◌, ◌≡◌, ◌≢◌, refl, ◌∙◌, ap, ◌⊎◌, inl, inr, true, false, ◌&&◌, none, some,
  arith, ◌==◌, if◌then◌else◌, ltb, leb, Bool-cases, Option-cases, ==→eq, ==→ne, ==-self, ne→==,
}
use vortex_os.Mm.{page_size, word, pmm_alloc_page, pmm_get_hhdm_offset}
use vortex_os.Net.{Bytes}
use vortex_os.Vfs.{Fs, VfsNode, set_node}
use vortex_os.Vfs.Files.{address_of, tmpfs_file_read, ensure_page, write_page, tmpfs_file_write}

-- The bytes that a write takes: no more than fit in the page.
abbrev pub stored : (offset size : ℕ) → ℕ
stored offset size = if ltb page_size (offset + size) then page_size - offset else size

-- The size of a file of the size `old` after a write.
abbrev pub grown : (old offset size : ℕ) → ℕ
grown old offset size =
    if ltb old (offset + stored offset size) then offset + stored offset size else old

-- What a write of `size` bytes at `offset` does to the file `i` with its page at `p`.
pub record IsWritten (s : Fs) (i p offset size : ℕ) (buffer : Bytes) (r : ℕ × Fs) : Type 0 where
  pub count : r.0 ≡ stored offset size
  pub node :
      r.1.nodes i
      ≡ record (s.nodes i) { private_data = some p; size = grown (s.nodes i).size offset size }
  pub bytes :
      (k : ℕ)
      → r.1.memory (p + k) ≡ (
          if leb offset k && ltb k (offset + stored offset size)
          then buffer (k - offset)
          else if leb (s.nodes i).size k && ltb k offset
          then 0
          else s.memory (p + k))
  pub inside : (a : ℕ) → (a < p) ⊎ (p + page_size ≤ a) → r.1.memory a ≡ s.memory a
  pub others : (x : ℕ) → x ≢ i → r.1.nodes x ≡ s.nodes x
  pub bounded : (r.1.nodes i).size ≤ page_size
  pub rest : r.1 ≡ record s { pmm = r.1.pmm; nodes = r.1.nodes; memory = r.1.memory }

write_page-IsWritten :
    (i p offset size : ℕ) (buffer : Bytes) (s : Fs)
    → (s.nodes i).private_data ≡ some p
    → (s.nodes i).size ≤ page_size
    → offset ≤ page_size
    → offset + size < word
    → IsWritten s i p offset size buffer (write_page i offset size buffer s)
unfolding write_page
write_page-IsWritten i p offset size buffer s e b o w =
    let m : (offset + size) % word ≡ offset + size = omega arith in
    let base : address_of (s.nodes i).private_data ≡ p = ap address_of e in
    record {
      count = rw m (ground arith);
      node =
          rw (m, ==-self i, e)
            (ap {A = ℕ} (λ z. record (s.nodes i) { private_data = some p; size = z })
              (ground arith));
      bytes = λ k. rw (m, base) (ground arith);
      inside = λ a h. rw (m, base) (ground arith);
      others = λ x n. rw (ne→== i x (λ q. n (ground arith)));
      bounded = rw (m, ==-self i) (ground arith);
      rest = refl;
    }

-- The page of the file when a write can take place: its own, or one that is allocated for it.
abbrev pub IsPageFor : Fs → ℕ → ℕ → Type 0
IsPageFor s i p =
    ((s.nodes i).private_data ≡ some p)
    ⊎ (((s.nodes i).private_data ≡ none)
        × ((pmm_alloc_page s.pmm).0 ≢ 0)
        × (p ≡ ((pmm_alloc_page s.pmm).0 + pmm_get_hhdm_offset s.pmm) % word))

-- What the allocation of a page changes.
record IsEnsured (s : Fs) (i p : ℕ) (s1 : Fs) : Type 0 where
  ensured : ensure_page i s ≡ (true, s1)
  node : s1.nodes i ≡ record (s.nodes i) { private_data = some p }
  memory : s1.memory ≡ s.memory
  others : (x : ℕ) → x ≢ i → s1.nodes x ≡ s.nodes x
  rest : s1 ≡ record s { pmm = s1.pmm; nodes = s1.nodes }

ensure_page-cases :
    (i : ℕ) (s : Fs)
    → (((s.nodes i).private_data ≡ none)
        × ((pmm_alloc_page s.pmm).0 ≡ 0)
        × (ensure_page i s ≡ (false, record s { pmm = (pmm_alloc_page s.pmm).1 })))
      ⊎ ((p : ℕ) × (s1 : Fs) × IsPageFor s i p × IsEnsured s i p s1)
unfolding ensure_page
ensure_page-cases i s = elim (Option-cases (s.nodes i).private_data) [
  | inr (p, e) ↦ inr (
    p,
    s,
    inl e,
    record {
      ensured = rw (ensure_page, e);
      node = ap (λ d. record (s.nodes i) { private_data = d }) e;
      memory = refl;
      others = λ x n. refl;
      rest = refl;
    },
  )
  | inl e ↦ elim (Bool-cases ((pmm_alloc_page s.pmm).0 == 0)) [
    | inl z ↦ inl (e, ==→eq _ _ z, rw (ensure_page, e, z))
    | inr z ↦ inr (
      ((pmm_alloc_page s.pmm).0 + pmm_get_hhdm_offset s.pmm) % word,
      set_node i
          (record (s.nodes i) {
            private_data = some (((pmm_alloc_page s.pmm).0 + pmm_get_hhdm_offset s.pmm) % word);
          })
          (record s { pmm = (pmm_alloc_page s.pmm).1 }),
      inr (e, ==→ne _ _ z, refl),
      record {
        ensured = rw (ensure_page, e, z);
        node = rw (==-self i);
        memory = refl;
        others = λ x n. rw (ne→== i x (λ q. n (ground arith)));
        rest = refl;
      },
    )
  ]
]

IsWritten-before :
    (s s1 : Fs) (i p offset size : ℕ) (buffer : Bytes) (r : ℕ × Fs)
    → IsEnsured s i p s1
    → IsWritten s1 i p offset size buffer r
    → IsWritten s i p offset size buffer r
IsWritten-before s s1 i p offset size buffer r e w =
    let length = ap (λ (n : VfsNode). n.size) e.node in
    record {
      count = w.count;
      node =
          w.node
          ∙ ap {A = VfsNode}
              (λ n. record n { private_data = some p; size = grown n.size offset size }) e.node;
      bytes = λ k. ground (arith, w.bytes k, length, ap (λ m. m (p + k)) e.memory);
      inside = λ a h. w.inside a h ∙ ap (λ m. m a) e.memory;
      others = λ x n. w.others x n ∙ e.others x n;
      bounded = w.bounded;
      rest =
          w.rest
          ∙ ap {A = Fs} (λ t. record t { pmm = r.1.pmm; nodes = r.1.nodes; memory = r.1.memory })
              e.rest;
    }

-- The page and the size of a file that was written.
IsWritten-page :
    (s : Fs) (i p offset size : ℕ) (buffer : Bytes) (r : ℕ × Fs)
    → IsWritten s i p offset size buffer r
    → ((r.1.nodes i).private_data ≡ some p)
      × ((r.1.nodes i).size ≡ grown (s.nodes i).size offset size)
IsWritten-page s i p offset size buffer r w =
    (ap (λ (n : VfsNode). n.private_data) w.node, ap (λ (n : VfsNode). n.size) w.node)

write-ensured :
    (i offset size : ℕ) (buffer : Bytes) (s s1 : Fs)
    → ensure_page i s ≡ (true, s1)
    → tmpfs_file_write i offset size buffer s ≡ write_page i offset size buffer s1
unfolding tmpfs_file_write
write-ensured i offset size buffer s s1 e = rw (tmpfs_file_write, ap (λ r. r.0) e, ap (λ r. r.1) e)

write-refused :
    (i offset size : ℕ) (buffer : Bytes) (s s1 : Fs)
    → ensure_page i s ≡ (false, s1)
    → tmpfs_file_write i offset size buffer s ≡ (0, s1)
unfolding tmpfs_file_write
write-refused i offset size buffer s s1 e = rw (tmpfs_file_write, ap (λ r. r.0) e, ap (λ r. r.1) e)

ensure-own : (i p : ℕ) (s : Fs) → (s.nodes i).private_data ≡ some p → ensure_page i s ≡ (true, s)
unfolding ensure_page
ensure-own i p s e = rw (ensure_page, e)

-- A write at an offset up to 4096, to a file of at most a page and without overflow of the sum of
-- offset and size, fails only for a file without a page when no page can be allocated; then it
-- returns 0 and the node stays as it is. Otherwise it returns the number of bytes that fit in the
-- page; these bytes are in the file, a gap before them is filled with zeros, and all other bytes of
-- the file and of the memory stay. Of the nodes only this one changes, in its page and its size: it
-- is as long as it was, or up to the end of the bytes that are written if that is more, and not
-- longer than a page. Nothing else of the file system changes but the page allocator.
pub tmpfs_file_write-cases :
    (i offset size : ℕ) (buffer : Bytes) (s : Fs)
    → (s.nodes i).size ≤ page_size
    → offset ≤ page_size
    → offset + size < word
    → (((s.nodes i).private_data ≡ none)
        × ((pmm_alloc_page s.pmm).0 ≡ 0)
        × ((tmpfs_file_write i offset size buffer s).0 ≡ 0)
        × ((tmpfs_file_write i offset size buffer s).1.nodes ≡ s.nodes))
      ⊎ ((p : ℕ) × IsPageFor s i p
          × IsWritten s i p offset size buffer (tmpfs_file_write i offset size buffer s))
tmpfs_file_write-cases i offset size buffer s b o w = elim (ensure_page-cases i s) [
  | inl (e, z, f) ↦
      let r = write-refused i offset size buffer s _ f in
      inl (e, z, ap (λ r. r.0) r, ap (λ r. r.1.nodes) r)
  | inr (p, s1, page, e) ↦ inr (
    p,
    page,
    rw (write-ensured i offset size buffer s s1 e.ensured) (
        IsWritten-before s s1 i p offset size buffer (write_page i offset size buffer s1) e (
          write_page-IsWritten i p offset size buffer s1
            (ap (λ (n : VfsNode). n.private_data) e.node)
            (rw (ap (λ (n : VfsNode). n.size) e.node) b) o w)),
  )
]

-- Reading gives the bytes of the file from the offset on, as many as are there and asked for.
pub tmpfs_file_read-bytes :
    (i p offset size : ℕ) (buffer : Bytes) (s : Fs)
    → (s.nodes i).private_data ≡ some p
    → ((tmpfs_file_read i offset size buffer s).0
        ≡ (if ltb size ((s.nodes i).size - offset) then size else (s.nodes i).size - offset))
      × ((k : ℕ)
          → (tmpfs_file_read i offset size buffer s).1 k ≡ (
              if ltb k size && ltb (offset + k) (s.nodes i).size
              then s.memory (p + offset + k)
              else buffer k))
unfolding tmpfs_file_read
tmpfs_file_read-bytes i p offset size buffer s e =
    let base : address_of (s.nodes i).private_data ≡ p = ap address_of e in
    (ground arith, λ k. rw base (ground arith))

-- Bytes that a write to a page took are read back: a read of as many bytes as were asked for, from
-- the same offset of a file that is written at an offset below 4096, returns at least the count
-- that the write returned, and gives the bytes of the writer's buffer up to that count.
pub tmpfs-written_back :
    (i p offset size : ℕ) (buffer buffer' : Bytes) (s : Fs)
    → (s.nodes i).private_data ≡ some p
    → (s.nodes i).size ≤ page_size
    → offset < page_size
    → offset + size < word
    → let (n, s') = tmpfs_file_write i offset size buffer s in
      let (m, read) = tmpfs_file_read i offset size buffer' s' in
      (n ≤ m) × (m ≤ size) × ((k : ℕ) → k < n → read k ≡ buffer k)
tmpfs-written_back i p offset size buffer buffer' s e b o w =
    let v = write_page-IsWritten i p offset size buffer s e b (omega arith) w in
    let s' = (write_page i offset size buffer s).1 in
    let (page, length) = IsWritten-page s i p offset size buffer _ v in
    let (count, bytes) = tmpfs_file_read-bytes i p offset size buffer' s' page in
    rw (write-ensured i offset size buffer s s (ensure-own i p s e)) (
      ground (arith, v.count, length, count),
      ground (arith, count),
      λ k h. ground (arith, bytes k, v.bytes (offset + k), v.count, length),
    )

write_page-past :
    (i p offset size k : ℕ) (buffer : Bytes) (s : Fs)
    → (s.nodes i).private_data ≡ some p
    → (s.nodes i).size ≤ page_size
    → offset + size < word
    → page_size ≤ k
    → k < offset
    → ((write_page i offset size buffer s).0 ≡ 0)
      × ((write_page i offset size buffer s).1.memory (p + k) ≡ 0)
      × (((write_page i offset size buffer s).1.nodes i).size ≡ page_size)
unfolding write_page
write_page-past i p offset size k buffer s e b w h g =
    let m : (offset + size) % word ≡ offset + size = omega arith in
    let base : address_of (s.nodes i).private_data ≡ p = ap address_of e in
    (rw m (ground arith), rw (m, base) (ground arith), rw (m, ==-self i) (ground arith))

-- A write behind the page of a file, without overflow of the sum of offset and size, returns 0;
-- but it sets every byte from the end of the page up to the offset to zero, which are not the
-- file's, and makes the file a page long.
pub tmpfs_file_write-past_page :
    (i p offset size k : ℕ) (buffer : Bytes) (s : Fs)
    → (s.nodes i).private_data ≡ some p
    → (s.nodes i).size ≤ page_size
    → offset + size < word
    → page_size ≤ k
    → k < offset
    → let (n, s') = tmpfs_file_write i offset size buffer s in
      (n ≡ 0) × (s'.memory (p + k) ≡ 0) × ((s'.nodes i).size ≡ page_size)
tmpfs_file_write-past_page i p offset size k buffer s e b w h g =
    rw (write-ensured i offset size buffer s s (ensure-own i p s e))
      (write_page-past i p offset size k buffer s e b w h g)
