-- ===== src/Process/Table.antt =====
-- The process list of process.cpp as a list of processes with different numbers.
use vortex_os.Base.{
  ℕ, suc, ◌+◌, ◌-◌, ◌%◌, ◌^◌, ◌≤◌, ◌<◌, ◌≡◌, ◌≢◌, refl, ◌∙◌, sym, subst, ap, ◌⊎◌, inl, inr, true,
  false, Option, none, some, List, arith, ◌==◌, has, erase, length, Distinct, Bool-cases,
  Option-cases, ==→eq, ==→ne, length-erase, erase-Distinct, has-erase, has-erase_self, Linked,
  Linked-same, Linked-erase, find-none, find-some, find_link-find, find_pointer-none,
  find_pointer-before, before, head_after, links_after,
}
use vortex_os.Process.{Process, Processes, link, proc_find, overwrite, proc_remove}

-- `ls` are the processes in the list, last added first. Their numbers are different, and below the
-- next one.
pub record IsTable (s : Processes) (ls : List ℕ) : Type 0 where
  pub linked : Linked (link s) s.list ls
  pub distinct : Distinct ls
  pub counted : s.count ≡ length ls
  pub numbered : (x : ℕ) → has x ls ≡ true → (s.processes x).pid < s.next_pid
  pub single :
      (x y : ℕ)
      → has x ls ≡ true
      → has y ls ≡ true
      → (s.processes x).pid ≡ (s.processes y).pid
      → x ≡ y

-- `proc_find` finds the one process in the list that has the number, and nothing where none has it.
pub proc_find-cases :
    (pid : ℕ) (s : Processes) (ls : List ℕ)
    → IsTable s ls
    → ((proc_find pid s ≡ none) × ((x : ℕ) → has x ls ≡ true → (s.processes x).pid ≢ pid))
      ⊎ ((x : ℕ) × (proc_find pid s ≡ some x) × (has x ls ≡ true) × ((s.processes x).pid ≡ pid))
unfolding proc_find
proc_find-cases pid s ls v =
    let e =
      find_link-find (suc s.count) (link s) (λ x. (s.processes x).pid == pid) s.list ls
        (omega (arith, v.counted)) v.linked in
    elim (Option-cases (proc_find pid s)) [
      | inl n ↦ inl (n, λ x i q. ==→ne _ _ (find-none _ ls (sym e ∙ n) x i) q)
      | inr (x, n) ↦
          let (i, t) = find-some _ ls x (sym e ∙ n) in
          inr (x, n, i, ==→eq (s.processes x).pid pid t)
    ]

pub proc_find-own :
    (i : ℕ) (s : Processes) (ls : List ℕ)
    → IsTable s ls
    → has i ls ≡ true
    → proc_find (s.processes i).pid s ≡ some i
proc_find-own i s ls v m = elim (proc_find-cases (s.processes i).pid s ls v) [
  | inl (e, n) ↦ absurd (n i m refl)
  | inr (x, e, h, p) ↦ e ∙ ap some (v.single x i h m p)
]

-- The same list in another state, with other contents of what is not in it.
module _ (s s' : Processes) (ls : List ℕ) (v : IsTable s ls)
    (same : (x : ℕ) → has x ls ≡ true → (s'.processes x ≡ s.processes x)) (list : s'.list ≡ s.list)
    (count : s'.count ≡ s.count) (pid : s.next_pid ≤ s'.next_pid) where
  pub Same-IsTable : IsTable s' ls
  Same-IsTable = record {
    linked =
        subst (λ h. Linked (link s') h ls) (sym list)
          (Linked-same (link s) (link s') s.list ls v.linked
            (λ x h. ap (λ (p : Process). p.next) (same x h)));
    distinct = v.distinct;
    counted = count ∙ v.counted;
    numbered = λ x h. omega (arith, v.numbered x h, ap (λ (p : Process). p.pid) (same x h), pid);
    single = λ x y h k e.
        v.single x y h k (
          sym (ap (λ (p : Process). p.pid) (same x h))
          ∙ e
          ∙ ap (λ (p : Process). p.pid) (same y k));
  }

overwrite-parts :
    (at : Option ℕ) (i x : ℕ) (s : Processes)
    → (link (overwrite at i s) x ≡ links_after at (link s i) (link s) x)
      × ((overwrite at i s).list ≡ head_after at (link s i) s.list)
      × ((overwrite at i s).count ≡ (s.count + 2 ^ 32 - 1) % 2 ^ 32)
      × (((overwrite at i s).processes x).pid ≡ (s.processes x).pid)
      × ((overwrite at i s).next_pid ≡ s.next_pid)
unfolding overwrite
overwrite-parts none i x s = ground arith
overwrite-parts (some p) i x s = ground arith

overwrite-IsTable :
    (i : ℕ) (s : Processes) (ls : List ℕ)
    → IsTable s ls
    → length ls < 2 ^ 32
    → has i ls ≡ true
    → IsTable (overwrite (before i none ls) i s) (erase i ls)
overwrite-IsTable i s ls v room m =
    let at = before i none ls in
    record {
      linked = rw ((overwrite-parts at i i s).1) (
          Linked-same (links_after at (link s i) (link s)) (link (overwrite at i s)) _ (erase i ls)
            (Linked-erase i (link s) s.list ls v.linked v.distinct m)
            (λ x h. (overwrite-parts at i x s).0));
      distinct = erase-Distinct i ls v.distinct;
      counted = omega (arith, overwrite-parts at i i s, v.counted, length-erase i ls m);
      numbered = λ x h. omega (arith, overwrite-parts at i x s, v.numbered x (has-erase i x ls h));
      single = λ x y h k e.
          v.single x y (has-erase i x ls h) (has-erase i y ls k)
            (sym (overwrite-parts at i x s).3 ∙ e ∙ (overwrite-parts at i y s).3);
    }

-- In a well-formed list of fewer than 2 ^ 32 processes, `proc_remove` leaves everything as it is for
-- a process that is not in the list, and takes one that is out, wherever it stands: the list stays
-- well formed with the others, in their order, and `proc_find` no longer finds its number.
pub proc_remove-cases :
    (i : ℕ) (s : Processes) (ls : List ℕ)
    → IsTable s ls
    → length ls < 2 ^ 32
    → ((has i ls ≡ false) × (proc_remove i s ≡ s))
      ⊎ ((has i ls ≡ true)
          × IsTable (proc_remove i s) (erase i ls)
          × (proc_find (s.processes i).pid (proc_remove i s) ≡ none))
unfolding proc_remove
proc_remove-cases i s ls v room =
    let long : length ls < suc s.count = omega (arith, v.counted) in
    elim (Bool-cases (has i ls)) [
      | inr out ↦ inl (
        out,
        simp (
          proc_remove,
          find_pointer-none (suc s.count) (link s) i none s.list ls long v.linked out,
        ),
      )
      | inl m ↦
          let at = before i none ls in
          let e : proc_remove i s ≡ overwrite at i s = simp (
            proc_remove,
            find_pointer-before (suc s.count) (link s) i none s.list ls long v.linked m,
          ) in
          let w = overwrite-IsTable i s ls v room m in
          inr (
            m,
            subst (λ t. IsTable t (erase i ls)) (sym e) w,
            ap (proc_find (s.processes i).pid) e
                ∙ elim (proc_find-cases (s.processes i).pid (overwrite at i s) (erase i ls) w) [
                  | inl (f, n) ↦ f
                  | inr (x, f, h, p) ↦
                      let same =
                        v.single x i (has-erase i x ls h) m
                          (sym (overwrite-parts at i x s).3 ∙ p) in
                      absurd (
                        ground (
                          arith,
                          ap (λ y. has y (erase i ls)) same,
                          has-erase_self i ls v.distinct,
                        ))
                ],
          )
    ]
