-- ===== src/Mm/Free.antt =====
-- `pmm_free_pages`: a freed block merges with its buddies and goes back to a free list.
use native.Mathlib.Nat.{pow-suc}
use vortex_os.Base.{
  ℕ, zero, suc, ◌+◌, ◌-◌, ◌*◌, ◌/◌, ◌%◌, ◌^◌, ◌≤◌, ◌<◌, ◌≡◌, refl, ◌⊎◌, inl, inr, true, false, ◌∷◌,
  ◌||◌, arith, ap, ◌==◌, if◌then◌else◌, ltb, leb, has, erase, update, subst, Bool-cases, ◌∙◌, sym,
  ne→==,
}
use vortex_os.Base.Bits.{bit_xor-clear, bit_xor-set}
use vortex_os.Mm.{
  Pmm, list_add, list_remove, max_order, merge, stops_merge, pmm_free_pages, pfn_to_phys,
  phys_to_pfn, clear_used, buddy_of, word, page_size,
}
use vortex_os.Mm.FreeLists.{Lists}
use vortex_os.Mm.Blocks.{
  IsFree, IsBlock, IsHeld, IsWf, Aligned, Apart, all_pages, pow_pos, pages-add, pages-remove,
  list_add-IsFree, list_add-IsHeld, list_remove-IsFree, list_remove-IsBlock, list_remove-IsHeld,
  list_remove-taken, Same, Same-IsFree, Same-IsBlock,
}
use vortex_os.Mm.Split.{list_add-free_pages, list_remove-free_pages}

-- A block and its buddy are the two halves of one aligned block.
IsPair : (a b o : ℕ) → Type 0
IsPair a b o = (b ≡ a + 2 ^ o) × Aligned a (suc o)

buddy_of-IsPair : (a o : ℕ) → Aligned a o → IsPair a (buddy_of a o) o ⊎ IsPair (buddy_of a o) a o
unfolding buddy_of IsPair
buddy_of-IsPair a o (m, e) = elim (Bool-cases (m % 2 == 0)) [
  | inl even ↦
      let k : m ≡ 2 * (m / 2) = ground arith in
      let e' : a ≡ 2 * (m / 2) * 2 ^ o = e ∙ ap (λ (n : ℕ). n * 2 ^ o) k in
      inl (
        rw (e', bit_xor-clear o (m / 2)) (omega arith),
        (m / 2, rw (e', pow-suc 2 o) (omega arith)),
      )
  | inr odd ↦
      let k : m ≡ 2 * (m / 2) + 1 = ground arith in
      let e' : a ≡ (2 * (m / 2) + 1) * 2 ^ o = e ∙ ap (λ (n : ℕ). n * 2 ^ o) k in
      inr (
        rw (e', bit_xor-set o (m / 2)) (omega arith),
        (m / 2, rw (e', bit_xor-set o (m / 2), pow-suc 2 o) (omega arith)),
      )
]

-- Two halves in hand are one block in hand.
join :
    (s : Pmm) (a b o : ℕ)
    → IsPair a b o
    → suc o ≤ max_order
    → IsBlock s a o
    → IsBlock s b o
    → IsBlock s a (suc o)
unfolding IsPair
join s a b o (e, al) h x y = record {
  small = h;
  aligned = al;
  outside =
      λ z f. ground (arith, x.outside z f, y.outside z f, pow-suc 2 o, pow_pos (s.frames z).order);
}

-- What is apart from both halves is apart from the block.
Apart-join : (c p a b o : ℕ) → IsPair a b o → Apart c p a o → Apart c p b o → Apart c p a (suc o)
unfolding IsPair
Apart-join c p a b o (e, _) x y = ground (arith, pow-suc 2 o, pow_pos p)

-- The state `s'` after the block `a` in hand went back to the free lists.
pub record IsFreed (s : Pmm) (ls : Lists) (a o : ℕ) (s' : Pmm) (ls' : Lists) : Type 0 where
  pub free : IsFree s' ls'
  pub count : all_pages ls' ≡ all_pages ls + 2 ^ o
  pub free_pages : s'.free_pages ≡ s.free_pages
  pub held : (c p : ℕ) → IsHeld s c p → Apart c p a o → IsHeld s' c p

list_add-IsFreed :
    (a o : ℕ) (s : Pmm) (ls : Lists)
    → IsFree s ls
    → IsBlock s a o
    → (ls' : Lists) × IsFreed s ls a o (list_add o a s) ls'
list_add-IsFreed a o s ls v b = (
  update ls o (a ∷ ls o),
  record {
    free = list_add-IsFree s ls v a o b;
    count = pages-add o a ls b.small;
    free_pages = list_add-free_pages o a s;
    held = λ c p k w. list_add-IsHeld s ls v a o c p k w;
  },
)

-- `n` is where the union of the buddies `a` and `b` starts.
IsUnion : (n a b o : ℕ) → Type 0
IsUnion n a b o = (IsPair a b o × (n ≡ a)) ⊎ (IsPair b a o × (n ≡ b))

lower-IsUnion :
    (a o : ℕ)
    → Aligned a o
    → IsUnion (if ltb (buddy_of a o) a then buddy_of a o else a) a (buddy_of a o) o
unfolding IsUnion
lower-IsUnion a o al = elim (buddy_of-IsPair a o al) [
  | inl p ↦ inl (p, unfold IsPair in ground (arith, pow_pos o, p.0))
  | inr p ↦ inr (p, unfold IsPair in ground (arith, pow_pos o, p.0))
]

union-IsBlock :
    (s : Pmm) (n a b o : ℕ)
    → IsUnion n a b o
    → suc o ≤ max_order
    → IsBlock s a o
    → IsBlock s b o
    → IsBlock s n (suc o)
unfolding IsUnion
union-IsBlock s n a b o (inl (p, e)) h x y = rw e (join s a b o p h x y)
union-IsBlock s n a b o (inr (p, e)) h x y = rw e (join s b a o p h y x)

Apart-union :
    (c p n a b o : ℕ) → IsUnion n a b o → Apart c p a o → Apart c p b o → Apart c p n (suc o)
unfolding IsUnion
Apart-union c p n a b o (inl (q, e)) x y = rw e (Apart-join c p a b o q x y)
Apart-union c p n a b o (inr (q, e)) x y = rw e (Apart-join c p b a o q y x)

-- A buddy that does not stop the loop is on the list of its order.
buddy-has :
    (s : Pmm) (ls : Lists) (o b : ℕ)
    → IsFree s ls
    → (leb s.total_pages b || stops_merge (s.frames b) o) ≡ false
    → has b (ls o) ≡ true
unfolding stops_merge
buddy-has s ls o b v go = ground (arith, v.linked.complete b)

-- One round: the buddy leaves its list, and the joined block goes on.
absorb :
    (a b o n : ℕ) (s s' : Pmm) (ls ls' : Lists)
    → IsFree s ls
    → has b (ls o) ≡ true
    → IsUnion n a b o
    → suc o ≤ max_order
    → IsFreed (list_remove o b s) (update ls o (erase b (ls o))) n (suc o) s' ls'
    → IsFreed s ls a o s' ls'
absorb a b o n s s' ls ls' v i u h r = record {
  free = r.free;
  count = omega (arith, r.count, pages-remove o b ls (omega arith) i, pow-suc 2 o);
  free_pages = r.free_pages ∙ list_remove-free_pages o b s;
  held = λ c p k w.
      let listed = v.linked.listed o b i in
      let w' : Apart c p b o = subst (Apart c p b) listed.1 (k.block.outside b listed.0) in
      r.held c p (list_remove-IsHeld s ls v b o i c p k) (Apart-union c p n a b o u w w');
}

merge-IsFreed :
    (rounds order a : ℕ) (s : Pmm) (ls : Lists)
    → order + rounds ≤ max_order
    → IsFree s ls
    → IsBlock s a order
    → (ls' : Lists) × IsFreed s ls a order (merge rounds order a s) ls'
unfolding merge
merge-IsFreed zero order a s ls h v b = list_add-IsFreed a order s ls v b
merge-IsFreed (suc rounds) order a s ls h v b =
    let c = buddy_of a order in
    let n = if ltb c a then c else a in
    elim (Bool-cases (leb s.total_pages c || stops_merge (s.frames c) order)) [
      | inl stop ↦ rw stop (list_add-IsFreed a order s ls v b)
      | inr go ↦
          let i : has c (ls order) ≡ true = buddy-has s ls order c v go in
          let u = lower-IsUnion a order b.aligned in
          let b1 = list_remove-IsBlock s ls v c order i a order b in
          let b2 = list_remove-taken s ls v c order i in
          let s1 = list_remove order c s in
          let one : suc order ≡ order + 1 = omega arith in
          let (ls', r) =
            merge-IsFreed rounds (order + 1) n s1 (update ls order (erase c (ls order)))
              (omega arith) (list_remove-IsFree s ls v c order i)
              (subst (IsBlock s1 n) one (union-IsBlock s1 n a c order u (omega arith) b1 b2)) in
          let s' = merge rounds (order + 1) n s1 in
          let r' =
            subst (λ (o : ℕ). IsFreed s1 (update ls order (erase c (ls order))) n o s' ls')
              (sym one) r in
          rw go (ls', absorb a c order n s s' ls ls' v i u (omega (arith, h)) r')
    ]

clear_used-Same : (a n : ℕ) (s : Pmm) → Same s (clear_used a (record s { free_pages = n }))
unfolding clear_used
clear_used-Same a n s = record {
  next = λ x. ground arith;
  prev = λ x. ground arith;
  free = λ x. ground arith;
  order = λ x f. ground arith;
  lists = λ o. refl;
}

clear_used-IsHeld :
    (a n c p : ℕ) (s : Pmm) → IsHeld s c p → IsHeld (clear_used a (record s { free_pages = n })) c p
unfolding clear_used
clear_used-IsHeld a n c p s k = record {
  block = Same-IsBlock s _ (clear_used-Same a n s) c p k.block;
  order = ground (arith, k.order);
}

pub phys_to_pfn-pfn_to_phys : (a : ℕ) → a * page_size < word → phys_to_pfn (pfn_to_phys a) ≡ a
unfolding phys_to_pfn pfn_to_phys
phys_to_pfn-pfn_to_phys a h = omega arith

-- What a caller of `pmm_free_pages` sees.
pub record IsReturned (s : Pmm) (ls : Lists) (a o : ℕ) (s' : Pmm) (ls' : Lists) : Type 0 where
  pub wf : IsWf s' ls'
  pub count : all_pages ls' ≡ all_pages ls + 2 ^ o
  pub held : (c p : ℕ) → IsHeld s c p → Apart c p a o → IsHeld s' c p

-- The state in which the merging starts.
unfoldable pub released : ℕ → ℕ → Pmm → Pmm
unfolding clear_used
released a o s = clear_used a (record s { free_pages = (s.free_pages + 2 ^ o) % word })

pub pmm_free_pages-merge :
    (a o count : ℕ) (s : Pmm)
    → 0 < a
    → a * page_size < word
    → (s.frames a).order ≡ o
    → pmm_free_pages (pfn_to_phys a) count s ≡ merge (max_order - o) o a (released a o s)
unfolding pmm_free_pages released
pmm_free_pages-merge a o count s pos small e =
    let ne : (pfn_to_phys a == 0) ≡ false =
      unfold pfn_to_phys in ne→== _ 0 (λ z. absurd (omega (arith, z))) in
    rw (ne, phys_to_pfn-pfn_to_phys a small, e)

released-free_pages :
    (a o : ℕ) (s : Pmm) → (released a o s).free_pages ≡ (s.free_pages + 2 ^ o) % word
unfolding released clear_used
released-free_pages a o s = refl

-- Freeing a held block other than block 0 keeps the free lists well formed, adds exactly the
-- block's pages to them and to the counter, and leaves every other held block held, whatever
-- merges on the way. The second argument of `pmm_free_pages` plays no part.
pub pmm_free_pages-IsReturned :
    (a o count : ℕ) (s : Pmm) (ls : Lists)
    → 0 < a
    → a * page_size < word
    → IsWf s ls
    → IsHeld s a o
    → (ls' : Lists) × IsReturned s ls a o (pmm_free_pages (pfn_to_phys a) count s) ls'
pmm_free_pages-IsReturned a o count s ls pos small v k =
    let s1 = released a o s in
    let same : Same s s1 = unfold released in clear_used-Same a ((s.free_pages + 2 ^ o) % word) s in
    let (ls', r) =
      merge-IsFreed (max_order - o) o a s1 ls (omega (arith, k.block.small))
        (Same-IsFree s s1 same ls v.free) (Same-IsBlock s s1 same a o k.block) in
    rw (pmm_free_pages-merge a o count s pos small k.order) (
      ls',
      record {
        wf = record {
          free = r.free;
          counted = omega (arith, r.free_pages, released-free_pages a o s, v.counted, r.count);
        };
        count = r.count;
        held = λ c p q. r.held c p (unfold released in clear_used-IsHeld a _ c p s q);
      },
    )
