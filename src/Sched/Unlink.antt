-- ===== src/Sched/Unlink.antt =====
-- Taking a thread out of its ready queue, at the head or in the middle.
use vortex_os.Base.{
  ℕ, zero, suc, ◌+◌, ◌-◌, ◌%◌, ◌<◌, ◌≡◌, refl, inl, inr, true, false, Option, none, some, List, [],
  ◌∷◌, ◌||◌, ◌&&◌, has-erase, arith, ◌==◌, if◌then◌else◌, has, erase, Distinct, length,
  length-erase, points_to, is_none, Bool-cases, update, subst, ==→eq, ==-self, erase-Distinct,
}
use vortex_os.Sched.{Tcb, Sched, pop_head, unlink, find_prev, num_priorities, word32}
use vortex_os.Sched.Chain.{Chain, Chain-same, Chain-erase, last?}
use vortex_os.Sched.Queues.{Lines, IsQueued, waiting-update}

-- The member before `t`, or `prev` where `t` comes first.
abbrev pub pred_in : ℕ → Option ℕ → List ℕ → Option ℕ
pred_in t prev [] = none
pred_in t prev (x ∷ xs) = if x == t then prev else pred_in t (some x) xs

pub find_prev-pred_in :
    (fuel : ℕ) (s : Sched) (start prev : Option ℕ) (l : List ℕ) (t : ℕ)
    → length l < fuel
    → Chain s.tcbs start l
    → has t l ≡ true
    → find_prev fuel start prev t s ≡ some (pred_in t prev l)
unfolding find_prev
find_prev-pred_in zero s start prev l t h c i = absurd (omega arith)
find_prev-pred_in (suc fuel) s start prev [] t h c i = ground arith
find_prev-pred_in (suc fuel) s start prev (x ∷ xs) t h c i = elim (Bool-cases (x == t)) [
  | inl e ↦ rw (c.0, find_prev, e)
  | inr n ↦
      rw (c.0, find_prev, n)
        (find_prev-pred_in fuel s (s.tcbs x).next (some x) xs t (omega arith) c.1 (ground arith))
]

Chain-next_has :
    (f : ℕ → Tcb) (start : Option ℕ) (l : List ℕ) (x t : ℕ)
    → Chain f start l
    → has x l ≡ true
    → points_to (f x).next t ≡ true
    → has t l ≡ true
Chain-next_has f start [] x t c h e = ground arith
Chain-next_has f start (a ∷ []) x t c h e = ground arith
Chain-next_has f start (a ∷ b ∷ l) x t c h e = elim (Bool-cases (a == x)) [
  | inl at ↦ ground arith
  | inr off ↦ ground (arith, Chain-next_has f (f a).next (b ∷ l) x t c.1)
]

pred_in-has :
    (t : ℕ) (prev : Option ℕ) (l : List ℕ) (x : ℕ)
    → points_to (pred_in t prev l) x ≡ true
    → (points_to prev x || has x l) ≡ true
pred_in-has t prev [] x h = ground arith
pred_in-has t prev (a ∷ l) x h = ground (arith, pred_in-has t (some a) l x)

pred_in-head :
    (f : ℕ → Tcb) (start : Option ℕ) (l : List ℕ) (t a : ℕ)
    → Chain f start l
    → has a l ≡ false
    → has t l ≡ true
    → points_to (pred_in t (some a) l) a ≡ points_to start t
pred_in-head f start [] t a c n h = ground arith
pred_in-head f start (b ∷ l) t a c n h = ground (arith, pred_in-has t (some b) l a)

-- Only the member before `t` has `t` as its `next`.
pred_in-links :
    (f : ℕ → Tcb) (start prev : Option ℕ) (l : List ℕ) (t x : ℕ)
    → Chain f start l
    → Distinct l
    → has t l ≡ true
    → points_to prev x ≡ false
    → has x l ≡ true
    → (x == t) ≡ false
    → points_to (f x).next t ≡ points_to (pred_in t prev l) x
pred_in-links f start prev [] t x c d h p i n = ground arith
pred_in-links f start prev (a ∷ l) t x c d h p i n = elim (Bool-cases (a == t)) [
  | inl at ↦ ground (arith, Chain-next_has f (f a).next l x t c.1, ==→eq a t at)
  | inr off ↦ elim (Bool-cases (a == x)) [
    | inl same ↦ ground (arith, pred_in-head f (f a).next l t a c.1 d.0, ==→eq a x same)
    | inr other ↦ ground (arith, pred_in-links f (f a).next (some a) l t x c.1 d.1)
  ]
]

pred_in-some : (t a : ℕ) (l : List ℕ) → has t l ≡ true → is_none (pred_in t (some a) l) ≡ false
pred_in-some t a [] h = ground arith
pred_in-some t a (b ∷ l) h = ground (arith, pred_in-some t b l)

pub pred_in_self :
    (t : ℕ) (prev : Option ℕ) (l : List ℕ)
    → points_to prev t ≡ false
    → points_to (pred_in t prev l) t ≡ false
pred_in_self t prev [] h = refl
pred_in_self t prev (a ∷ l) h = ground (arith, pred_in_self t (some a) l)

pred_in-start :
    (f : ℕ → Tcb) (start : Option ℕ) (l : List ℕ) (t : ℕ)
    → Chain f start l
    → has t l ≡ true
    → is_none (pred_in t none l) ≡ points_to start t
pred_in-start f start [] t c h = ground arith
pred_in-start f start (a ∷ l) t c h = ground (arith, pred_in-some t a l)

last_or : Option ℕ → List ℕ → Option ℕ
last_or d [] = d
last_or d (x ∷ xs) = last_or (some x) xs

last?-last_or : (d : Option ℕ) (x : ℕ) (l : List ℕ) → last? (x ∷ l) ≡ last_or d (x ∷ l)
unfolding last_or
last?-last_or d x [] = refl
last?-last_or d x (y ∷ l) = last?-last_or (some x) y l

last?-none : (l : List ℕ) → last? l ≡ last_or none l
unfolding last_or
last?-none [] = refl
last?-none (x ∷ l) = last?-last_or none x l

last_or-erase :
    (f : ℕ → Tcb) (start prev : Option ℕ) (l : List ℕ) (t : ℕ)
    → Chain f start l
    → has t l ≡ true
    → last_or prev (erase t l) ≡ (if is_none (f t).next then pred_in t prev l else last_or prev l)
unfolding last_or
last_or-erase f start prev [] t c h = ground arith
last_or-erase f start prev (a ∷ []) t c h = ground arith
last_or-erase f start prev (a ∷ b ∷ l) t c h = elim (Bool-cases (a == t)) [
  | inl e ↦ rw e (ground arith)
  | inr n ↦ rw n (last_or-erase f (f a).next (some a) (b ∷ l) t c.1 (ground arith))
]

last?-erase :
    (f : ℕ → Tcb) (start : Option ℕ) (l : List ℕ) (t : ℕ)
    → Chain f start l
    → has t l ≡ true
    → last? (erase t l) ≡ (if is_none (f t).next then pred_in t none l else last? l)
last?-erase f start l t c h =
    rw (last?-none (erase t l), last?-none l) (last_or-erase f start none l t c h)

-- What `unlink` leaves in the thread `x`.
pub record Unlinked (s : Sched) (t x : ℕ) (prev : Option ℕ) (c : Tcb) : Type 0 where
  pub next :
      c.next
      ≡ (if t == x then none else if points_to prev x then (s.tcbs t).next else (s.tcbs x).next)
  pub priority : c.priority ≡ (s.tcbs x).priority
  pub state : c.state ≡ (s.tcbs x).state
  pub policy : c.policy ≡ (s.tcbs x).policy
  pub deadline : c.abs_deadline ≡ (s.tcbs x).abs_deadline

pub unlink-Unlinked :
    (p t x : ℕ) (prev : Option ℕ) (s : Sched)
    → points_to prev t ≡ false
    → Unlinked s t x prev ((unlink p t prev s).tcbs x)
unfolding unlink
unlink-Unlinked p t x none s h = ground arith
unlink-Unlinked p t x (some y) s h = ground arith

pub unlink-queues :
    (p t q : ℕ) (prev : Option ℕ) (s : Sched)
    → points_to prev t ≡ false
    → (((unlink p t prev s).queues q).head
        ≡ (if is_none prev && (p == q) then (s.tcbs t).next else (s.queues q).head))
      × (((unlink p t prev s).queues q).tail
          ≡ (if is_none (s.tcbs t).next && (p == q) then prev else (s.queues q).tail))
unfolding unlink
unlink-queues p t q none s h = ground arith
unlink-queues p t q (some y) s h = ground arith

unlink-total :
    (p t : ℕ) (prev : Option ℕ) (s : Sched)
    → (unlink p t prev s).total_ready ≡ (s.total_ready + word32 - 1) % word32
unfolding unlink
unlink-total p t prev s = ground arith

module _ (s : Sched) (ls : Lines) (v : IsQueued s ls) (p t : ℕ) (i : has t (ls p) ≡ true) where
  pub own : points_to (pred_in t none (ls p)) t ≡ false
  own = pred_in_self t none (ls p) refl

  pub at :
      (x : ℕ)
      → Unlinked s t x (pred_in t none (ls p)) ((unlink p t (pred_in t none (ls p)) s).tcbs x)
  at x = unlink-Unlinked p t x (pred_in t none (ls p)) s own

  unlink-Chain_here :
      Chain
        (unlink p t (pred_in t none (ls p)) s).tcbs
        (if is_none (pred_in t none (ls p)) then (s.tcbs t).next else (s.queues p).head)
        (erase t (ls p))
  unlink-Chain_here =
      Chain-erase s.tcbs (unlink p t (pred_in t none (ls p)) s).tcbs t (s.queues p).head _ (ls p)
        (v.chains p) (v.distinct p)
        (λ x h n. ground (
          arith,
          at x,
          pred_in-links s.tcbs (s.queues p).head none (ls p) t x (v.chains p) (v.distinct p) i refl
              h n,
        ))
        (ground (arith, pred_in-start s.tcbs (s.queues p).head (ls p) t (v.chains p) i))

  unlink-Chain_else :
      (q : ℕ)
      → (p == q) ≡ false
      → Chain (unlink p t (pred_in t none (ls p)) s).tcbs (s.queues q).head (ls q)
  unlink-Chain_else q n =
      Chain-same s.tcbs (unlink p t (pred_in t none (ls p)) s).tcbs (s.queues q).head (ls q)
        (v.chains q)
        (λ x h. ground (
          arith,
          at x,
          pred_in-has t none (ls p) x,
          v.listed p x,
          v.listed q x,
          v.listed p t i,
          ==→eq t x,
        ))

  unlink-Chain :
      (q : ℕ)
      → Chain
          (unlink p t (pred_in t none (ls p)) s).tcbs
          ((unlink p t (pred_in t none (ls p)) s).queues q).head
          (update ls p (erase t (ls p)) q)
  unlink-Chain q = elim (Bool-cases (p == q)) [
    | inl e ↦
        let s' = unlink p t (pred_in t none (ls p)) s in
        let same : (s'.queues p).head
            ≡ (if is_none (pred_in t none (ls p)) then (s.tcbs t).next else (s.queues p).head) =
          ground (arith, (unlink-queues p t p (pred_in t none (ls p)) s own).0) in
        subst (λ r. Chain s'.tcbs (s'.queues r).head (update ls p (erase t (ls p)) r)) (==→eq p q e)
          (rw (same, ==-self p) unlink-Chain_here)
    | inr n ↦
        let same : ((unlink p t (pred_in t none (ls p)) s).queues q).head ≡ (s.queues q).head =
          ground (arith, (unlink-queues p t q (pred_in t none (ls p)) s own).0) in
        rw (same, n) (unlink-Chain_else q n)
  ]

  -- A waiting thread leaves its line, wherever it stands in it, and all others keep their places.
  pub unlink-IsQueued :
      IsQueued (unlink p t (pred_in t none (ls p)) s) (update ls p (erase t (ls p)))
  unlink-IsQueued = record {
    chains = unlink-Chain;
    tails = λ q. ground (
      arith,
      unlink-queues p t q (pred_in t none (ls p)) s own,
      v.tails q,
      ==→eq p q,
      last?-erase s.tcbs (s.queues p).head (ls p) t (v.chains p) i,
    );
    distinct = λ q. ground (arith, v.distinct q, erase-Distinct t (ls p) (v.distinct p));
    listed =
        λ q x h. ground (arith, at x, has-erase t x (ls p), v.listed p x, v.listed q x, ==→eq p q);
    counted = omega (
      arith,
      unlink-total p t (pred_in t none (ls p)) s,
      v.counted,
      v.room,
      length-erase t (ls p) i,
      waiting-update num_priorities p ls (erase t (ls p)) (v.listed p t i).2,
    );
    room = omega (
      arith,
      v.room,
      length-erase t (ls p) i,
      waiting-update num_priorities p ls (erase t (ls p)) (v.listed p t i).2,
    );
  }

pop_head-unlink_next :
    (p t : ℕ) (n : Option ℕ) (s : Sched) → (s.tcbs t).next ≡ n → pop_head p t s ≡ unlink p t none s
unfolding pop_head unlink
pop_head-unlink_next p t none s e = rw (e, pop_head, unlink)
pop_head-unlink_next p t (some n) s e = rw (e, pop_head, unlink)

-- `queue_pop_front` is the same removal at the head.
pub pop_head-unlink : (p t : ℕ) (s : Sched) → pop_head p t s ≡ unlink p t none s
unfolding pop_head unlink
pop_head-unlink p t s = pop_head-unlink_next p t (s.tcbs t).next s refl
