-- ===== src/Mm/Init/Ready.antt =====
-- `pmm_init` of mm.cpp as a whole, in bytes: where the metadata lies, and what is free.
use vortex_os.Base.{
  ℕ, ◌+◌, ◌*◌, ◌/◌, ◌%◌, ◌^◌, ◌≤◌, ◌<◌, ◌≡◌, refl, ◌⊎◌, inl, inr, none, some, List, [], ◌∷◌, arith,
  ltb, sym, ◌∙◌, ap, leb, ◌&&◌, ◌==◌, if◌then◌else◌, Bool-cases, Option-cases,
}
use vortex_os.Mm.{Pmm, page_size, word, page_align_up, page_align_down, phys_to_pfn}
use vortex_os.Mm.Init.{
  MemmapEntry, start_pfn, end_pfn, highest_end, place_metadata, meta_size, meta_first, meta_last,
  usable, frame_size, init_frames, free_regions, pmm_init,
}
use vortex_os.Mm.Init.Region.{Covered}
use vortex_os.Mm.Init.Regions.{
  IsUsable, AllUsable, AnyUsable, Disjoint, AreDisjoint, Inside, AllUsable-all, AllUsable-zip,
  free_regions-IsInit, IsFresh, no_blocks, init_frames-free, init_frames-IsWf,
}
use vortex_os.Mm.FreeLists.{Lists}
use vortex_os.Mm.Blocks.{IsFreeFrame, IsWf}

-- The first byte behind an entry.
abbrev pub finish : MemmapEntry → ℕ
finish e = e.base + e.length

-- An entry of the memory map as the Limine protocol promises it of usable memory: its base is a
-- multiple of the page size, and it does not pass the end of the address space.
pub record IsSound (e : MemmapEntry) : Type 0 where
  pub aligned : e.base % page_size ≡ 0
  pub bounded : finish e < word

-- Usable entries are sound, and no two of them have a byte in common.
abbrev pub IsRegular : List MemmapEntry → Type 0
IsRegular [] = Unit {0}
IsRegular (e ∷ es) =
    (IsUsable e
      → IsSound e × AllUsable (λ d. IsSound d × ((finish e ≤ d.base) ⊎ (finish d ≤ e.base))) es)
    × IsRegular es

-- The size of the metadata: a `PageFrame` for each page that lies wholly below the end of some entry
-- of any kind, and none besides.
abbrev pub Enough : (size : ℕ) → List MemmapEntry → Type 0
Enough size [] = Unit {0}
Enough size (e ∷ es) = (finish e % word / page_size * frame_size ≤ size) × Enough size es

abbrev pub Needed : (size : ℕ) → List MemmapEntry → Type 0
Needed size [] = size ≡ 0
Needed size (e ∷ es) = (size ≡ finish e % word / page_size * frame_size) ⊎ Needed size es

-- The bytes of the pages from `p` up to `q` are not those of the metadata.
abbrev pub Misses : (base size p q : ℕ) → Type 0
Misses base size p q = (q * page_size ≤ base) ⊎ (base + size ≤ p * page_size)

-- The pages from `p` up to `q` lie in the entry.
abbrev pub Within : (p q : ℕ) → MemmapEntry → Type 0
Within p q e = (e.base ≤ p * page_size) × (q * page_size ≤ finish e)

-- A free block has the page `x`.
abbrev pub IsFreePage : Pmm → ℕ → Type 0
IsFreePage s x = (y : ℕ) × IsFreeFrame s y × (y ≤ x) × (x < y + 2 ^ (s.frames y).order)

-- Every page in the entry whose bytes are not those of the metadata is free.
abbrev pub AllFree : (base size : ℕ) → Pmm → MemmapEntry → Type 0
AllFree base size s e = (x : ℕ) → Within x (x + 1) e → Misses base size x (x + 1) → IsFreePage s x

-- The metadata has `size` bytes from `base` on, which lie in a usable entry; well-formed free lists
-- have the pages of usable entries without these bytes.
pub record IsReady (es : List MemmapEntry) (base size : ℕ) (s' : Pmm) (ls' : Lists) : Type 0 where
  pub wf : IsWf s' ls'
  pub placed : AnyUsable (λ e. (e.base ≡ base) × (size ≤ e.length)) es
  pub only :
      (y : ℕ)
      → IsFreeFrame s' y
      → let next = y + 2 ^ (s'.frames y).order in
        AnyUsable (Within y next) es × Misses base size y next
  pub all : AllUsable (AllFree base size s') es

highest_end-low : (h : ℕ) (es : List MemmapEntry) → h ≤ highest_end h es
unfolding highest_end
highest_end-low h [] = omega arith
highest_end-low h (e ∷ es) =
    ground (arith, highest_end-low (finish e % word) es, highest_end-low h es)

highest_end-bounded : (h : ℕ) (es : List MemmapEntry) → h < word → highest_end h es < word
unfolding highest_end
highest_end-bounded h [] b = b
highest_end-bounded h (e ∷ es) b =
    ground (arith, highest_end-bounded (finish e % word) es, highest_end-bounded h es)

highest_end-Enough :
    (h size : ℕ) (es : List MemmapEntry)
    → highest_end h es / page_size * frame_size ≤ size
    → Enough size es
unfolding highest_end
highest_end-Enough h size [] k = tt
highest_end-Enough h size (e ∷ es) k =
    let end = finish e % word in
    let next = if ltb h end then end else h in
    let above : end ≤ next = ground arith in
    let low = highest_end-low next es in
    (omega (arith, k, low, above), highest_end-Enough next size es k)

highest_end-Needed :
    (h r : ℕ) (es : List MemmapEntry)
    → highest_end h es ≡ r
    → (r ≡ h) ⊎ Needed (r / page_size * frame_size) es
unfolding highest_end
highest_end-Needed h r [] k = inl (sym k)
highest_end-Needed h r (e ∷ es) k =
    let end = finish e % word in
    let next = if ltb h end then end else h in
    let which : (next ≡ end) ⊎ (next ≡ h) = ground arith in
    elim (highest_end-Needed next r es k) [
      | inr n ↦ inr (inr n)
      | inl q ↦ elim which [
        | inl a ↦ inr (inl (ap (λ x. x / page_size * frame_size) (q ∙ a)))
        | inr a ↦ inl (q ∙ a)
      ]
    ]

-- What the code computes is the size of the metadata.
meta_size-highest :
    (es : List MemmapEntry) → meta_size es ≡ highest_end 0 es / page_size * frame_size
unfolding phys_to_pfn
meta_size-highest es = omega (arith, highest_end-bounded 0 es (omega arith))

place_metadata-none :
    (size : ℕ) (es : List MemmapEntry)
    → place_metadata size es ≡ none
    → AllUsable (λ e. e.length < size) es
unfolding place_metadata
place_metadata-none size [] h = tt
place_metadata-none size (e ∷ es) h =
    (λ u. ground (arith, u, h), place_metadata-none size es (ground (arith, h)))

place_metadata-some :
    (size base : ℕ) (es : List MemmapEntry)
    → place_metadata size es ≡ some base
    → AnyUsable (λ e. (e.base ≡ base) × (size ≤ e.length)) es
unfolding place_metadata
place_metadata-some size base [] h = cc
place_metadata-some size base (e ∷ es) h =
    elim (Bool-cases ((e.kind == usable) && leb size e.length)) [
      | inl t ↦ inl (ground (arith, t), ground (arith, t, h))
      | inr t ↦ inr (place_metadata-some size base es (ground (arith, t, h)))
    ]

Sound-pages :
    (e : MemmapEntry)
    → IsSound e
    → (start_pfn e ≡ e.base / page_size) × (end_pfn e ≡ finish e / page_size)
unfolding page_align_up page_align_down phys_to_pfn
Sound-pages e v = (omega (arith, v.aligned, v.bounded), omega (arith, v.bounded))

AllUsable-map :
    (P Q : MemmapEntry → Type 0) (es : List MemmapEntry)
    → ((e : MemmapEntry) → P e → Q e)
    → AllUsable P es
    → AllUsable Q es
AllUsable-map P Q es f = λ a. AllUsable-zip P P Q es (λ e p _. f e p) a a

AnyUsable-map :
    (S P Q : MemmapEntry → Type 0) (es : List MemmapEntry)
    → ((e : MemmapEntry) → S e → P e → Q e)
    → AllUsable S es
    → AnyUsable P es
    → AnyUsable Q es
AnyUsable-map S P Q [] f a h = h
AnyUsable-map S P Q (e ∷ es) f a (inl (u, p)) = inl (u, f e (a.0 u) p)
AnyUsable-map S P Q (e ∷ es) f a (inr h) = inr (AnyUsable-map S P Q es f a.1 h)

AnyUsable-same : (C : Type 0) (es : List MemmapEntry) → AnyUsable (λ e. C) es → C
AnyUsable-same C [] h = absurd h
AnyUsable-same C (e ∷ es) (inl (u, c)) = c
AnyUsable-same C (e ∷ es) (inr h) = AnyUsable-same C es h

Regular-IsSound : (es : List MemmapEntry) → IsRegular es → AllUsable IsSound es
Regular-IsSound [] g = tt
Regular-IsSound (e ∷ es) g = (λ u. (g.0 u).0, Regular-IsSound es g.1)

Regular-AreDisjoint : (es : List MemmapEntry) → IsRegular es → AreDisjoint es
Regular-AreDisjoint [] g = tt
Regular-AreDisjoint (e ∷ es) g = (
  λ u.
      let (v, apart) = g.0 u in
      AllUsable-map _ (Disjoint e) es
        (λ d (w, h). ground (arith, Sound-pages e v, Sound-pages d w, w.aligned, v.aligned)) apart,
  Regular-AreDisjoint es g.1,
)

Needed-zero : (size : ℕ) (es : List MemmapEntry) → size ≡ 0 → Needed size es
Needed-zero size [] z = z
Needed-zero size (e ∷ es) z = inr (Needed-zero size es z)

-- The size of the metadata is that of a `PageFrame` for each page below the highest end.
abbrev pub IsSize : (size : ℕ) → List MemmapEntry → Type 0
IsSize size es = Enough size es × Needed size es

meta_size-IsSize : (es : List MemmapEntry) → IsSize (meta_size es) es
meta_size-IsSize es =
    let exact = meta_size-highest es in
    (
      highest_end-Enough 0 (meta_size es) es (omega (arith, exact)),
      elim (highest_end-Needed 0 (highest_end 0 es) es refl) [
        | inl z ↦ Needed-zero (meta_size es) es (omega (arith, exact, z))
        | inr n ↦ rw exact n
      ],
    )

-- The pages that the code takes for the metadata are those of its bytes.
Meta-pages :
    (es : List MemmapEntry) (base : ℕ)
    → base % page_size ≡ 0
    → base + meta_size es < word
    → (meta_first base * page_size ≡ base)
      × (meta_last es base * page_size < base + meta_size es + page_size)
      × (base + meta_size es ≤ meta_last es base * page_size)
unfolding phys_to_pfn
Meta-pages es base a b =
    let exact = meta_size-highest es in
    let high = highest_end-bounded 0 es (omega arith) in omega (arith, exact, high)

Inside-bytes :
    (base size ms me o y : ℕ) (e : MemmapEntry)
    → ms * page_size ≡ base
    → base + size ≤ me * page_size
    → IsSound e
    → Inside ms me o y e
    → Within y (y + 2 ^ o) e × Misses base size y (y + 2 ^ o)
Inside-bytes base size ms me o y e first last v (lo, hi, out) =
    let (start, stop) = Sound-pages e v in
    (
      (omega (arith, start, v.aligned), omega (arith, stop)),
      elim out [ inl a ↦ inl (omega arith) | inr a ↦ inr (omega arith) ],
    )

Covered-bytes :
    (base size ms me : ℕ) (s : Pmm) (e : MemmapEntry)
    → ms * page_size ≡ base
    → me * page_size < base + size + page_size
    → IsSound e
    → Covered s (start_pfn e) (end_pfn e) ms me
    → AllFree base size s e
Covered-bytes base size ms me s e first last v c x (lo, hi) out =
    let (start, stop) = Sound-pages e v in
    c x (omega (arith, start)) (omega (arith, stop))
      (elim out [ inl a ↦ inl (omega arith) | inr a ↦ inr (omega arith) ])

-- On a regular memory map, whose usable entries start at page boundaries, end below 2^64 and have no
-- byte in common, and from the empty state at boot: the metadata takes as many
-- bytes as a `PageFrame` for each page below the highest end of an entry (modulo 2^64), and
-- `pmm_init` panics exactly when every usable entry is shorter. Otherwise the metadata lies at the
-- start of a usable entry, and the free lists are well formed with a counter that agrees with them;
-- every free block lies in a usable entry and has no byte of the metadata, and every page that lies
-- wholly in a usable entry and has no byte of the metadata is in a free block.
pub pmm_init-IsReady :
    (es : List MemmapEntry) (hhdm : ℕ) (s : Pmm)
    → IsRegular es
    → IsFresh s
    → (size : ℕ) × IsSize size es
      × ((AllUsable (λ e. e.length < size) es × (pmm_init es hhdm s ≡ none))
          ⊎ ((base : ℕ) × (s' : Pmm) × (ls' : Lists) × (pmm_init es hhdm s ≡ some s')
              × IsReady es base size s' ls'))
unfolding pmm_init
pmm_init-IsReady es hhdm s g z =
    let size = meta_size es in
    let sound = Regular-IsSound es g in
    (
      size,
      meta_size-IsSize es,
      elim (Option-cases (place_metadata size es)) [
        | inl e ↦ inl (place_metadata-none size es e, rw (e, pmm_init))
        | inr (base, e) ↦
            let placed = place_metadata-some size base es e in
            let (aligned, bounded) : (base % page_size ≡ 0) × (base + size < word) =
              AnyUsable-same _ es (
                AnyUsable-map IsSound _ _ es
                  (λ d v (b, l). (omega (arith, b, v.aligned), omega (arith, b, l, v.bounded)))
                  sound placed) in
            let (first, over, last) = Meta-pages es base aligned bounded in
            let s1 = init_frames es hhdm base s in
            let none_free : (y : ℕ) → IsFreeFrame s1 y → ⊥ =
              λ y f. ground (arith, init_frames-free es hhdm base y s z) in
            let (ls', r) =
              free_regions-IsInit (meta_first base) (meta_last es base) es s1 no_blocks
                (Regular-AreDisjoint es g) (init_frames-IsWf es hhdm base s z)
                (AllUsable-all _ es (λ e y f. absurd (none_free y f))) in
            let s' = free_regions (meta_first base) (meta_last es base) es s1 in
            inr (
              base,
              s',
              ls',
              rw (e, pmm_init),
              record {
                wf = r.wf;
                placed = placed;
                only = λ y f. elim (r.new y f) [
                  | inl a ↦ absurd (none_free y a)
                  | inr w ↦ (
                    AnyUsable-map IsSound _ _ es
                        (λ d v i. (Inside-bytes base size _ _ _ y d first last v i).0) sound w,
                    AnyUsable-same _ es (
                        AnyUsable-map IsSound _ _ es
                          (λ d v i. (Inside-bytes base size _ _ _ y d first last v i).1) sound w),
                  )
                ];
                all =
                    AllUsable-zip _ _ _ es
                      (λ d v c. Covered-bytes base size _ _ s' d first over v c) sound r.covers;
              },
            )
      ],
    )
