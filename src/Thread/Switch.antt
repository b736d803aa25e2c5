-- ===== src/Thread/Switch.antt =====
-- A thread that is switched away from and back to goes on where it was.
use vortex_os.Base.{
  ℕ, ◌+◌, ◌-◌, ◌%◌, ◌≤◌, ◌<◌, ◌≡◌, ◌≢◌, refl, arith, update, ◌∙◌, ap, ◌⊎◌, inl, inr, ==-self, ne→==,
}
use vortex_os.Mm.{word}
use vortex_os.Sched.{Sched}
use vortex_os.Thread.{Memory, Cpu, push, save_context, restore_context, context_switch}

-- A push, `k` bytes having been pushed on the stack that started at `sp`.
pub push-eq :
    (k v sp : ℕ) (r : ℕ × Memory) (m : Memory)
    → r ≡ (sp - k, m)
    → k + 8 ≤ sp
    → sp < word
    → push v r ≡ (sp - (k + 8), update m (sp - (k + 8)) v)
unfolding push
push-eq k v sp r m e h l =
    let lower : (sp - k + word - 8) % word ≡ sp - (k + 8) = omega arith in
    ap (push v) e ∙ ap (λ a. (a, update m a v)) lower

-- The memory when the registers are saved.
unfoldable pub saved : Cpu → Memory → Memory
saved c m =
    update
      (update
        (update (update (update (update m (c.rsp - 8) c.rbx) (c.rsp - 16) c.rbp) (c.rsp - 24) c.r12)
          (c.rsp - 32) c.r13)
        (c.rsp - 40) c.r14)
      (c.rsp - 48) c.r15

save_context-eq :
    (c : Cpu) (m : Memory) → 48 ≤ c.rsp → c.rsp < word → save_context c m ≡ (c.rsp - 48, saved c m)
unfolding save_context saved
save_context-eq c m h k =
    let start : c.rsp ≡ c.rsp - 0 = omega arith in
    push-eq 40 c.r15 c.rsp _ _
      (push-eq 32 c.r14 c.rsp _ _
        (push-eq 24 c.r13 c.rsp _ _
          (push-eq 16 c.r12 c.rsp _ _
            (push-eq 8 c.rbp c.rsp _ _
              (push-eq 0 c.rbx c.rsp (c.rsp, m) m (ap (λ a. (a, m)) start) (omega arith) k)
              (omega arith) k)
            (omega arith) k)
          (omega arith) k)
        (omega arith) k)
      (omega arith) k

saved-outside :
    (c : Cpu) (m : Memory) (a : ℕ) → 48 ≤ c.rsp → (a < c.rsp - 48) ⊎ (c.rsp ≤ a) → saved c m a ≡ m a
unfolding saved
saved-outside c m a h o = ground arith

-- The words of a thread that does not run: its registers, and where its call of `context_switch`
-- returns to.
pub record IsParked (c : Cpu) (back : ℕ) (m : Memory) : Type 0 where
  pub r15 : m (c.rsp - 48) ≡ c.r15
  pub r14 : m (c.rsp - 40) ≡ c.r14
  pub r13 : m (c.rsp - 32) ≡ c.r13
  pub r12 : m (c.rsp - 24) ≡ c.r12
  pub rbp : m (c.rsp - 16) ≡ c.rbp
  pub rbx : m (c.rsp - 8) ≡ c.rbx
  pub rip : m c.rsp ≡ back

saved-IsParked : (c : Cpu) (m : Memory) → 48 ≤ c.rsp → IsParked c (m c.rsp) (saved c m)
unfolding saved
saved-IsParked c m h = record {
  r15 = ground arith;
  r14 = ground arith;
  r13 = ground arith;
  r12 = ground arith;
  rbp = ground arith;
  rbx = ground arith;
  rip = ground arith;
}

restore-parked :
    (c : Cpu) (back : ℕ) (m : Memory)
    → 48 ≤ c.rsp
    → c.rsp + 8 < word
    → IsParked c back m
    → restore_context (c.rsp - 48) m ≡ record c { rip = back; rsp = c.rsp + 8 }
unfolding restore_context
restore-parked c back m h k p =
    let at : (i j : ℕ) → i + j ≡ 48 → (c.rsp - 48 + i) % word ≡ c.rsp - j = λ i j e. omega arith in
    let a0 : (c.rsp - 48 + 48) % word ≡ c.rsp = omega arith in
    let a8 : (c.rsp - 48 + 56) % word ≡ c.rsp + 8 = omega arith in
    rw (
      at 8 40 refl,
      at 16 32 refl,
      at 24 24 refl,
      at 32 16 refl,
      at 40 8 refl,
      a0,
      a8,
      p.r15,
      p.r14,
      p.r13,
      p.r12,
      p.rbp,
      p.rbx,
      p.rip,
    )

IsParked-same :
    (c : Cpu) (back : ℕ) (m m' : Memory)
    → 48 ≤ c.rsp
    → ((a : ℕ) → c.rsp - 48 ≤ a → a < c.rsp + 8 → m' a ≡ m a)
    → IsParked c back m
    → IsParked c back m'
IsParked-same c back m m' h e p = record {
  r15 = e (c.rsp - 48) (omega arith) (omega arith) ∙ p.r15;
  r14 = e (c.rsp - 40) (omega arith) (omega arith) ∙ p.r14;
  r13 = e (c.rsp - 32) (omega arith) (omega arith) ∙ p.r13;
  r12 = e (c.rsp - 24) (omega arith) (omega arith) ∙ p.r12;
  rbp = e (c.rsp - 16) (omega arith) (omega arith) ∙ p.rbp;
  rbx = e (c.rsp - 8) (omega arith) (omega arith) ∙ p.rbx;
  rip = e c.rsp (omega arith) (omega arith) ∙ p.rip;
}

context_switch-parts :
    (old new : ℕ) (c : Cpu) (s : Sched) (m : Memory)
    → 48 ≤ c.rsp
    → c.rsp < word
    → (((context_switch old new c s m).1.tcbs old).context.rsp ≡ c.rsp - 48)
      × ((context_switch old new c s m).2 ≡ saved c m)
unfolding context_switch
context_switch-parts old new c s m h k = (
  ground (arith, ap (λ r. r.0) (save_context-eq c m h k), ==-self old),
  ap (λ r. r.1) (save_context-eq c m h k),
)

context_switch-restores :
    (old new : ℕ) (d : Cpu) (s : Sched) (m : Memory)
    → 48 ≤ d.rsp
    → d.rsp < word
    → old ≢ new
    → (context_switch old new d s m).0 ≡ restore_context (s.tcbs new).context.rsp (saved d m)
unfolding context_switch
context_switch-restores old new d s m h k n = rw (
  ap (λ r. r.0) (save_context-eq d m h k),
  ap (λ r. r.1) (save_context-eq d m h k),
  ne→== old new n,
)

-- The thread `old` is switched away from with the registers `c`. Later, `x` is switched away from
-- with the registers `d` and the control block of `old` is the one to run. If `old` and `x` are
-- not the same, their stacks have room below the stack pointers and do not touch, and nothing in
-- between wrote what `old` had left, its stored stack pointer included, then `old` goes on behind
-- its own call of `context_switch`, with the registers and the stack pointer it had.
pub context_switch-back :
    (old new x : ℕ) (c d : Cpu) (s s2 : Sched) (m m2 : Memory)
    → 48 ≤ c.rsp
    → c.rsp + 8 < word
    → 48 ≤ d.rsp
    → d.rsp < word
    → (d.rsp ≤ c.rsp - 48) ⊎ (c.rsp + 8 ≤ d.rsp - 48)
    → x ≢ old
    → (s2.tcbs old).context.rsp ≡ ((context_switch old new c s m).1.tcbs old).context.rsp
    → ((a : ℕ) → c.rsp - 48 ≤ a → a < c.rsp + 8 → m2 a ≡ (context_switch old new c s m).2 a)
    → (context_switch x old d s2 m2).0 ≡ record c { rip = m c.rsp; rsp = c.rsp + 8 }
context_switch-back old new x c d s s2 m m2 h k i j apart n e same =
    let (sp, mem) = context_switch-parts old new c s m h (omega arith) in
    let kept : (a : ℕ) → c.rsp - 48 ≤ a → a < c.rsp + 8 → saved d m2 a ≡ saved c m a = λ a u v.
      saved-outside d m2 a i (elim apart [ inl p ↦ inr (omega arith) | inr p ↦ inl (omega arith) ])
      ∙ same a u v
      ∙ ap (λ f. f a) mem in
    context_switch-restores x old d s2 m2 i j n
    ∙ ap (λ p. restore_context p (saved d m2)) (e ∙ sp)
    ∙ restore-parked c (m c.rsp) (saved d m2) h k
        (IsParked-same c (m c.rsp) (saved c m) (saved d m2) h kept (saved-IsParked c m h))
