-- ===== src/Mm/Init/Regions.antt =====
-- The loop of `pmm_init` over all entries, in pages: what it frees of each usable entry.
use vortex_os.Base.{
  ℕ, suc, ◌+◌, ◌-◌, ◌^◌, ◌≤◌, ◌≡◌, refl, ◌⊎◌, inl, inr, true, false, none, List, [], ◌∷◌, arith,
  ◌==◌, Bool-cases, sym, subst,
}
use vortex_os.Mm.{Pmm}
use vortex_os.Mm.Init.{
  MemmapEntry, usable, start_pfn, end_pfn, free_region, free_regions, init_frames, reserve_frame,
}
use vortex_os.Mm.Init.Region.{Unfree, Covered, IsRegion, free_region-IsRegion}
use vortex_os.Mm.FreeLists.{Lists}
use vortex_os.Mm.Blocks.{IsFreeFrame, IsWf, pages}

abbrev pub IsUsable : MemmapEntry → Type 0
IsUsable e = (e.kind == usable) ≡ true

abbrev pub AllUsable : (MemmapEntry → Type 0) → List MemmapEntry → Type 0
AllUsable P [] = Unit {0}
AllUsable P (e ∷ es) = (IsUsable e → P e) × AllUsable P es

abbrev pub AnyUsable : (MemmapEntry → Type 0) → List MemmapEntry → Type 0
AnyUsable P [] = ⊥
AnyUsable P (e ∷ es) = (IsUsable e × P e) ⊎ AnyUsable P es

-- The pages of two entries do not overlap.
abbrev pub Disjoint : MemmapEntry → MemmapEntry → Type 0
Disjoint d e = (end_pfn d ≤ start_pfn e) ⊎ (end_pfn e ≤ start_pfn d)

-- No two usable entries have a page in common.
abbrev pub AreDisjoint : List MemmapEntry → Type 0
AreDisjoint [] = Unit {0}
AreDisjoint (e ∷ es) = (IsUsable e → AllUsable (Disjoint e) es) × AreDisjoint es

-- The block of order `o` at `y` lies in the entry, and not in the metadata.
abbrev pub Inside : (meta_start meta_end o y : ℕ) → MemmapEntry → Type 0
Inside meta_start meta_end o y e =
    (start_pfn e ≤ y) × (y + 2 ^ o ≤ end_pfn e) × ((y + 2 ^ o ≤ meta_start) ⊎ (meta_end ≤ y))

pub record IsInit (s : Pmm) (es : List MemmapEntry) (meta_start meta_end : ℕ) (s' : Pmm)
    (ls' : Lists) : Type 0 where
  pub wf : IsWf s' ls'
  pub kept :
      (y : ℕ) → IsFreeFrame s y → IsFreeFrame s' y × ((s'.frames y).order ≡ (s.frames y).order)
  pub new :
      (y : ℕ)
      → IsFreeFrame s' y
      → IsFreeFrame s y ⊎ AnyUsable (Inside meta_start meta_end (s'.frames y).order y) es
  pub covers : AllUsable (λ e. Covered s' (start_pfn e) (end_pfn e) meta_start meta_end) es

pub AllUsable-all :
    (P : MemmapEntry → Type 0) (es : List MemmapEntry) → ((e : MemmapEntry) → P e) → AllUsable P es
AllUsable-all P [] f = tt
AllUsable-all P (e ∷ es) f = (λ _. f e, AllUsable-all P es f)

pub AllUsable-zip :
    (P Q R : MemmapEntry → Type 0) (es : List MemmapEntry)
    → ((e : MemmapEntry) → P e → Q e → R e)
    → AllUsable P es
    → AllUsable Q es
    → AllUsable R es
AllUsable-zip P Q R [] f a b = tt
AllUsable-zip P Q R (e ∷ es) f a b = (λ u. f e (a.0 u) (b.0 u), AllUsable-zip P Q R es f a.1 b.1)

-- The entries still to come stay clear of the blocks of this one.
region-Unfree :
    (s s' : Pmm) (ls' : Lists) (d e : MemmapEntry) (meta_start meta_end : ℕ)
    → IsRegion s (start_pfn d) (end_pfn d) meta_start meta_end s' ls'
    → Disjoint d e
    → Unfree s (start_pfn e) (end_pfn e)
    → Unfree s' (start_pfn e) (end_pfn e)
region-Unfree s s' ls' d e meta_start meta_end r apart u y f =
    ground (arith, r.new y f, r.kept y, u y)

Covered-kept :
    (s s' : Pmm) (lo hi ms me : ℕ)
    → ((y : ℕ) → IsFreeFrame s y → IsFreeFrame s' y × ((s'.frames y).order ≡ (s.frames y).order))
    → Covered s lo hi ms me
    → Covered s' lo hi ms me
Covered-kept s s' lo hi ms me kept c x a b d =
    let (y, f, p, q) = c x a b d in let (f', o) = kept y f in (y, f', p, rw o q)

pub free_regions-IsInit :
    (meta_start meta_end : ℕ) (es : List MemmapEntry) (s : Pmm) (ls : Lists)
    → AreDisjoint es
    → IsWf s ls
    → AllUsable (λ e. Unfree s (start_pfn e) (end_pfn e)) es
    → (ls' : Lists) × IsInit s es meta_start meta_end (free_regions meta_start meta_end es s) ls'
unfolding free_regions
free_regions-IsInit ms me [] s ls g v u =
    (ls, record { wf = v; kept = λ y f. (f, refl); new = λ y f. inl f; covers = tt })
free_regions-IsInit ms me (e ∷ es) s ls g v u = elim (Bool-cases (e.kind == usable)) [
  | inr other ↦
      let (ls', r) = free_regions-IsInit ms me es s ls g.1 v u.1 in
      rw other (
        ls',
        record {
          wf = r.wf;
          kept = r.kept;
          new = λ y f. elim (r.new y f) [ inl a ↦ inl a | inr a ↦ inr (inr a) ];
          covers = (λ u. cc, r.covers);
        },
      )
  | inl here ↦
      let (ls1, q) =
        free_region-IsRegion (suc (end_pfn e - start_pfn e)) (start_pfn e) (end_pfn e) ms me s ls
          (omega arith) v (u.0 here) in
      let s1 = free_region (suc (end_pfn e - start_pfn e)) (start_pfn e) (end_pfn e) ms me s in
      let (ls', r) = free_regions-IsInit ms me es s1 ls1 g.1 q.wf (
        AllUsable-zip (Disjoint e) (λ d. Unfree s (start_pfn d) (end_pfn d)) _ es
          (λ d. region-Unfree s s1 ls1 e d ms me q) (g.0 here) u.1) in
      let s' = free_regions ms me es s1 in
      rw here (
        ls',
        record {
          wf = r.wf;
          kept = λ y f. ground (arith, q.kept y, r.kept y);
          new = λ y f. elim (r.new y f) [
            | inr a ↦ inr (inr a)
            | inl g ↦ elim (q.new y g) [
              | inl a ↦ inl a
              | inr w ↦ inr (inl (here, subst (λ o. Inside ms me o y e) (sym (r.kept y g).1) w))
            ]
          ];
          covers =
              (λ _. Covered-kept s1 s' (start_pfn e) (end_pfn e) ms me r.kept q.covers, r.covers);
        },
      )
]

-- The state of the kernel's zeroed memory before `pmm_init`.
pub record IsFresh (s : Pmm) : Type 0 where
  pub no_frame : (x : ℕ) → (s.frames x).flags.free ≡ false
  pub no_list : (o : ℕ) → s.free_lists o ≡ none
  pub no_page : s.free_pages ≡ 0

abbrev pub no_blocks : Lists
no_blocks o = []

pub init_frames-free :
    (es : List MemmapEntry) (hhdm base x : ℕ) (s : Pmm)
    → IsFresh s
    → ((init_frames es hhdm base s).frames x).flags.free ≡ false
unfolding init_frames reserve_frame
init_frames-free es hhdm base x s z = ground (arith, z.no_frame x)

pub init_frames-IsWf :
    (es : List MemmapEntry) (hhdm base : ℕ) (s : Pmm)
    → IsFresh s
    → IsWf (init_frames es hhdm base s) no_blocks
init_frames-IsWf es hhdm base s z =
    let off = λ (x : ℕ). init_frames-free es hhdm base x s z in
    record {
      free = record {
        linked = record {
          chains = λ o. unfold init_frames in z.no_list o;
          distinct = λ o. tt;
          listed = λ o x h. cc;
          complete = λ x h. ground (arith, off x);
        };
        small = λ x h. ground (arith, off x);
        aligned = λ x h. absurd (ground (arith, off x));
        apart = λ x y h k n. ground (arith, off x);
      };
      counted = unfold init_frames pages in z.no_page;
    }
