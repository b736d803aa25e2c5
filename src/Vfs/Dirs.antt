-- ===== src/Vfs/Dirs.antt =====
-- Directories as lists of their children: opening, listing and making them.
use vortex_os.Base.{
  ℕ, zero, suc, ◌+◌, ◌-◌, ◌≤◌, ◌<◌, ◌≡◌, ◌≢◌, refl, ◌∙◌, ap, sym, ◌⊎◌, inl, inr, true, false,
  Option, none, some, List, [], ◌∷◌, arith, ◌==◌, if◌then◌else◌, get_elem?, List-cases, length, has,
  Distinct, Bool-cases, Option-cases, ==→eq, ==-self, ne→==, Text, Linked, Linked-same, find,
  find-none, find-some, find_link-find,
}
use vortex_os.Vfs.{
  directory, Fs, str_cmp, str_cpy, copy_chars, is_zero, name_size, new_node, create_node,
  dir_add_child, dot, dot_dot, dir_open, can_open, is_directory, vfs_readdir, nth_sibling, make_dir,
  vfs_mkdir, set_node,
}
use vortex_os.Vfs.Paths.{IsText, str_cmp_self, str_cmp→eq}

abbrev pub sibling : Fs → ℕ → Option ℕ
sibling s x = (s.nodes x).next_sibling

-- `cs` are the children of the directory `d`, last made first.
pub record IsDir (s : Fs) (d : ℕ) (cs : List ℕ) : Type 0 where
  pub linked : Linked (sibling s) (s.nodes d).children cs
  pub distinct : Distinct cs
  pub counted : length cs ≤ s.created
  pub texts : (x : ℕ) → has x cs ≡ true → IsText (s.nodes x).name

-- A name that is neither "." nor "..".
pub record IsPlain (name : Text) : Type 0 where
  pub text : IsText name
  pub not_dot : is_zero (str_cmp name dot) ≡ false
  pub not_dot_dot : is_zero (str_cmp name dot_dot) ≡ false

dir_open-find :
    (d : ℕ) (name : Text) (s : Fs) (cs : List ℕ)
    → IsDir s d cs
    → IsPlain name
    → dir_open d name s ≡ find (λ x. is_zero (str_cmp (s.nodes x).name name)) cs
unfolding dir_open
dir_open-find d name s cs v n =
    rw (n.not_dot, n.not_dot_dot)
      (find_link-find (suc s.created) (sibling s) _ (s.nodes d).children cs
        (omega (arith, v.counted)) v.linked)

-- Opening a name other than "." and ".." in a directory gives a child with this name, and nothing
-- where no child has it.
pub dir_open-cases :
    (d : ℕ) (name : Text) (s : Fs) (cs : List ℕ)
    → IsDir s d cs
    → IsPlain name
    → ((dir_open d name s ≡ none) × ((x : ℕ) → has x cs ≡ true → (s.nodes x).name ≢ name))
      ⊎ ((x : ℕ) × (dir_open d name s ≡ some x) × (has x cs ≡ true) × ((s.nodes x).name ≡ name))
dir_open-cases d name s cs v p =
    let e = dir_open-find d name s cs v p in
    elim (Option-cases (dir_open d name s)) [
      | inl n ↦ inl (
        n,
        λ x i q. ground (
          arith,
          find-none _ cs (sym e ∙ n) x i,
          str_cmp_self name,
          ap (λ t. is_zero (str_cmp t name)) q,
        ),
      )
      | inr (x, n) ↦
          let (i, t) = find-some _ cs x (sym e ∙ n) in
          inr (x, n, i, str_cmp→eq (s.nodes x).name name (v.texts x i) p.text t)
    ]

readdir-at :
    (fuel : ℕ) (start : Option ℕ) (cs : List ℕ) (k : ℕ) (s : Fs)
    → length cs < fuel
    → Linked (sibling s) start cs
    → nth_sibling fuel start k s ≡ get_elem? cs k
unfolding nth_sibling
readdir-at zero start cs k s h c = absurd (omega arith)
readdir-at (suc fuel) start [] k s h c = rw (c, nth_sibling)
readdir-at (suc fuel) start (x ∷ cs) zero s h c = rw (c.0, nth_sibling)
readdir-at (suc fuel) start (x ∷ cs) (suc k) s h c =
    rw (c.0, nth_sibling) (readdir-at fuel (sibling s x) cs k s (omega arith) c.1)

-- `vfs_readdir` lists the children of a directory by their indices, and gives nothing behind them.
pub vfs_readdir-children :
    (d index : ℕ) (s : Fs) (cs : List ℕ)
    → IsDir s d cs
    → is_directory (s.nodes d).kind ≡ true
    → vfs_readdir d index s ≡ get_elem? cs index
unfolding vfs_readdir
vfs_readdir-children d index s cs v k =
    rw k (
      readdir-at (suc s.created) (s.nodes d).children cs index s (omega (arith, v.counted))
        v.linked)

copy_chars-short : (n : ℕ) (a : Text) → length a ≤ n → copy_chars n a ≡ a
unfolding copy_chars
copy_chars-short zero [] h = refl
copy_chars-short zero (c ∷ a) h = absurd (omega arith)
copy_chars-short (suc n) [] h = refl
copy_chars-short (suc n) (c ∷ a) h = ap (λ t. c ∷ t) (copy_chars-short n a (omega arith))

-- The state when the node `d` was made for a directory in `p`.
abbrev created : (d p : ℕ) → List ℕ → Text → Fs → Fs
created d p rest name s =
    let s1 = record (set_node d (new_node name directory) s) {
      supply = rest;
      created = s.created + 1;
    } in
    dir_add_child p d (set_node d (record (s1.nodes d) { ops = (s1.nodes p).ops }) s1)

make_dir-some :
    (d p : ℕ) (rest : List ℕ) (name : Text) (s : Fs)
    → s.supply ≡ d ∷ rest
    → make_dir p name s ≡ (some d, created d p rest name s)
unfolding make_dir create_node
make_dir-some d p rest name s e =
    let f : create_node name directory s ≡ (
      some d,
      record (set_node d (new_node name directory) s) { supply = rest; created = s.created + 1 },
    ) =
      rw (create_node, e) in
    rw (make_dir, ap (λ r. r.0) f, ap (λ r. r.1) f)

make_dir-none : (p : ℕ) (name : Text) (s : Fs) → s.supply ≡ [] → make_dir p name s ≡ (none, s)
unfolding make_dir create_node
make_dir-none p name s e =
    let f : create_node name directory s ≡ (none, s) = simp (create_node, e) in
    rw (make_dir, ap (λ r. r.0) f, ap (λ r. r.1) f)

-- What making the directory `d` in `p` leaves of each node.
record IsMade (s : Fs) (d p x : ℕ) (name : Text) (s' : Fs) : Type 0 where
  siblings : sibling s' x ≡ (if d == x then (s.nodes p).children else sibling s x)
  named : (s'.nodes x).name ≡ (if d == x then str_cpy name name_size else (s.nodes x).name)
  parents : (s'.nodes x).parent ≡ (if d == x then some p else (s.nodes x).parent)
  firsts :
      (s'.nodes x).children
      ≡ (if p == x then some d else if d == x then none else (s.nodes x).children)
  kinds : (s'.nodes x).kind ≡ (if d == x then directory else (s.nodes x).kind)
  tables : (s'.nodes x).ops ≡ (if d == x then (s.nodes p).ops else (s.nodes x).ops)

created-IsMade :
    (d p x : ℕ) (rest : List ℕ) (name : Text) (s : Fs)
    → d ≢ p
    → IsMade s d p x name (created d p rest name s)
unfolding dir_add_child
created-IsMade d p x rest name s n =
    let a = ne→== d p n in
    let b = ne→== p d (λ e. n (sym e)) in
    record {
      siblings = ground (arith, ==→eq d x, ==→eq p x);
      named = ground (arith, ==→eq d x, ==→eq p x);
      parents = ground (arith, ==→eq d x, ==→eq p x);
      firsts = ground (arith, ==→eq d x, ==→eq p x);
      kinds = ground (arith, ==→eq d x, ==→eq p x);
      tables = ground (arith, ==→eq d x, ==→eq p x);
    }

created-count :
    (d p : ℕ) (rest : List ℕ) (name : Text) (s : Fs)
    → (created d p rest name s).created ≡ s.created + 1
unfolding dir_add_child
created-count d p rest name s = refl

created-IsDir :
    (d p : ℕ) (rest : List ℕ) (name : Text) (s : Fs) (cs : List ℕ)
    → IsDir s p cs
    → d ≢ p
    → has d cs ≡ false
    → IsText name
    → length name < name_size
    → IsDir (created d p rest name s) p (d ∷ cs)
unfolding str_cpy
created-IsDir d p rest name s cs v n new t short =
    let s' = created d p rest name s in
    let m = λ (x : ℕ). created-IsMade d p x rest name s n in
    let whole = copy_chars-short (name_size - 1) name (omega arith) in
    record {
      linked = (
        rw ((m p).firsts, ==-self p),
        rw ((m d).siblings, ==-self d)
            (Linked-same (sibling s) (sibling s') (s.nodes p).children cs v.linked
              (λ x h. ground (arith, (m x).siblings, ==→eq d x))),
      );
      distinct = (new, v.distinct);
      counted = omega (arith, v.counted, created-count d p rest name s);
      texts = λ x h. elim (Bool-cases (d == x)) [
        | inl e ↦ rw ((m x).named, e, whole) t
        | inr e ↦ rw ((m x).named, e) (v.texts x (ground arith))
      ];
    }

-- The new directory is the first that opening its name comes to.
made-opens :
    (d p : ℕ) (rest : List ℕ) (name : Text) (s : Fs) (cs : List ℕ)
    → IsDir (created d p rest name s) p (d ∷ cs)
    → d ≢ p
    → IsPlain name
    → length name < name_size
    → dir_open p name (created d p rest name s) ≡ some d
unfolding find str_cpy
made-opens d p rest name s cs w n plain short =
    let m = created-IsMade d p d rest name s n in
    let whole = copy_chars-short (name_size - 1) name (omega arith) in
    let named : ((created d p rest name s).nodes d).name ≡ name = rw (m.named, ==-self d) whole in
    dir_open-find p name (created d p rest name s) (d ∷ cs) w plain
    ∙ rw (ap (λ t. is_zero (str_cmp t name)) named ∙ str_cmp_self name)

-- The new directory `d` in `p`, with no child of its name before, unless `p` was not asked.
abbrev pub IsMadeDir : Fs → (p d : ℕ) → Text → List ℕ → Fs → Type 0
IsMadeDir s p d name cs s' =
    ((can_open (s.nodes p).ops ≡ false) ⊎ ((x : ℕ) → has x cs ≡ true → (s.nodes x).name ≢ name))
    × IsDir s' p (d ∷ cs)
    × IsDir s' d []
    × ((s'.nodes d).parent ≡ some p)
    × (is_directory (s'.nodes d).kind ≡ true)
    × (dir_open p name s' ≡ some d)

make_dir-cases :
    (p : ℕ) (name : Text) (s : Fs) (cs : List ℕ)
    → IsDir s p cs
    → IsPlain name
    → length name < name_size
    → ((d : ℕ) (rest : List ℕ) → s.supply ≡ d ∷ rest → (d ≢ p) × (has d cs ≡ false))
    → ((can_open (s.nodes p).ops ≡ false) ⊎ ((x : ℕ) → has x cs ≡ true → (s.nodes x).name ≢ name))
    → ((make_dir p name s ≡ (none, s)) × (s.supply ≡ []))
      ⊎ ((d : ℕ) × (s' : Fs) × (make_dir p name s ≡ (some d, s')) × IsMadeDir s p d name cs s')
make_dir-cases p name s cs v plain short fresh apart = elim (List-cases s.supply) [
  | inl empty ↦ inl (make_dir-none p name s empty, empty)
  | inr (d, rest, f) ↦
      let (n, new) = fresh d rest f in
      let s' = created d p rest name s in
      let m = created-IsMade d p d rest name s n in
      let w = created-IsDir d p rest name s cs v n new plain.text short in
      inr (
        d,
        s',
        make_dir-some d p rest name s f,
        (
          apart,
          w,
          record {
            linked = rw (m.firsts, ne→== p d (λ e. n (sym e)), ==-self d);
            distinct = tt;
            counted = omega arith;
            texts = λ x h. cc;
          },
          rw (m.parents, ==-self d),
          rw (m.kinds, ==-self d),
          made-opens d p rest name s cs w n plain short,
        ),
      )
]

-- `vfs_mkdir` in a directory, for a name of at most 255 characters other than "." and "..", when
-- the node that `kmalloc` gives next is neither the directory nor a child of it: it returns
-- nothing and leaves the file system as it is if there is no memory, or if the directory has an operation `open` and
-- a child has the name already; otherwise it returns a new empty directory, the first child of `p`
-- before the old ones, with `p` as its parent, which the search for the name in `p` finds. In a
-- directory without `open` it makes a second child of the same name.
pub vfs_mkdir-cases :
    (p : ℕ) (name : Text) (s : Fs) (cs : List ℕ)
    → IsDir s p cs
    → is_directory (s.nodes p).kind ≡ true
    → IsPlain name
    → length name < name_size
    → ((d : ℕ) (rest : List ℕ) → s.supply ≡ d ∷ rest → (d ≢ p) × (has d cs ≡ false))
    → ((vfs_mkdir p name s ≡ (none, s))
        × ((s.supply ≡ [])
            ⊎ ((can_open (s.nodes p).ops ≡ true)
                × ((x : ℕ) × (has x cs ≡ true) × ((s.nodes x).name ≡ name)))))
      ⊎ ((d : ℕ) × (s' : Fs) × (vfs_mkdir p name s ≡ (some d, s')) × IsMadeDir s p d name cs s')
unfolding vfs_mkdir
vfs_mkdir-cases p name s cs v k plain short fresh = elim (Bool-cases (can_open (s.nodes p).ops)) [
  | inr o ↦
      let same : vfs_mkdir p name s ≡ make_dir p name s = rw (k, o) refl in
      elim (make_dir-cases p name s cs v plain short fresh (inl o)) [
        | inl (e, empty) ↦ inl (same ∙ e, inl empty)
        | inr (d, s', e, made) ↦ inr (d, s', same ∙ e, made)
      ]
  | inl o ↦ elim (dir_open-cases p name s cs v plain) [
    | inr (x, e, i, q) ↦ inl (rw (k, o, e), inr (o, (x, i, q)))
    | inl (e, apart) ↦
        let same : vfs_mkdir p name s ≡ make_dir p name s = rw (k, o, e) refl in
        elim (make_dir-cases p name s cs v plain short fresh (inr apart)) [
          | inl (f, empty) ↦ inl (same ∙ f, inl empty)
          | inr (d, s', f, made) ↦ inr (d, s', same ∙ f, made)
        ]
  ]
]
