-- ===== src/Sched/Schedule/Next.antt =====
-- What a call of `schedule` leaves behind: the next thread runs, and the queues are well formed.
use vortex_os.Base.{
  ℕ, zero, suc, ◌+◌, ◌≤◌, ◌<◌, ◌≡◌, ◌≢◌, refl, inl, inr, Bool, true, not, Option, none, some, [],
  ◌∷◌, ◌++◌, arith, ◌==◌, if◌then◌else◌, has, head?, erase, Bool-cases, ==→eq, ==-self,
  has-erase_self, length-append, length-erase, ◌∙◌, ◌>>=◌,
}
use vortex_os.Sched.{running, Sched, switch, set_state, num_priorities, word32}
use vortex_os.Sched.Queues.{Lines, IsQueued, waiting, all_waiting, waiting-update}
use vortex_os.Sched.Schedule.{is_running, choose, switch_to, dispatch, or_else, schedule, reenqueue}
use vortex_os.Sched.Schedule.Switch.{
  IsOff, requeued, IsCurrent, IsKept, reenqueue-some, lines_after, IsRightNext, IsChosen,
  choose-IsChosen, set_state-IsQueued,
}

waiting-empty : (n : ℕ) (ls : Lines) → ((p : ℕ) → p < n → ls p ≡ []) → waiting n ls ≡ 0
unfolding waiting
waiting-empty zero ls h = refl
waiting-empty (suc n) ls h = rw (waiting-empty n ls (λ p k. h p (omega arith)), h n (omega arith))

requeued-waiting :
    (s : Sched) (ls : Lines) (c : ℕ)
    → (s.tcbs c).priority < num_priorities
    → all_waiting (requeued c s ls) ≤ all_waiting ls + 1
requeued-waiting s ls c h = elim (Bool-cases (is_running (s.tcbs c).state)) [
  | inl e ↦
      let p = (s.tcbs c).priority in
      rw e (
        omega (
          arith,
          waiting-update num_priorities p ls (ls p ++ c ∷ []) h,
          length-append (ls p) (c ∷ []),
        ))
  | inr e ↦ rw e (omega arith)
]

lines_after-room :
    (s : Sched) (ls : Lines) (next : Option ℕ)
    → ((x : ℕ) → next ≡ some x → (s.tcbs x).priority < num_priorities)
    → IsRightNext s ls next
    → all_waiting ls < word32
    → all_waiting (lines_after next s ls) + 1 < word32
lines_after-room s ls none small (n, e) room = rw (waiting-empty num_priorities ls e) (omega arith)
lines_after-room s ls (some x) small (i, why) room =
    let p = (s.tcbs x).priority in
    omega (
      arith,
      waiting-update num_priorities p ls (erase x (ls p)) (small x refl),
      length-erase x (ls p) i,
    )

lines_after-IsOff :
    (s s1 : Sched) (ls : Lines) (next : Option ℕ) (n i : ℕ)
    → IsQueued s1 ls
    → IsKept s s1
    → IsRightNext s ls next
    → or_else next (some i) ≡ some n
    → IsOff n (lines_after next s ls)
lines_after-IsOff s s1 ls none n i v k (w, empty) e q = elim (Bool-cases (has n (ls q))) [
  | inl h ↦ absurd (ground (arith, empty q, v.listed q n))
  | inr h ↦ h
]
lines_after-IsOff s s1 ls (some x) n i v k (m, why) e q = ground (
  arith,
  v.listed q n,
  k.priority n,
  has-erase_self x (ls (s.tcbs x).priority) (v.distinct _),
  ==→eq (s.tcbs x).priority q,
  ==-self q,
)

-- What `dispatch` does besides the queues.
record IsDispatched (hhdm : ℕ) (s : Sched) (c n : ℕ) (s' : Sched) : Type 0 where
  on : s'.enabled ≡ s.enabled
  queues : s'.queues ≡ s.queues
  total : s'.total_ready ≡ s.total_ready
  current : s'.current ≡ (if n == c then s.current else some n)
  tcbs : s'.tcbs ≡ (set_state n running s).tcbs

dispatch-IsDispatched :
    (hhdm : ℕ) (s : Sched) (c n : ℕ) → IsDispatched hhdm s c n (dispatch c n hhdm s)
unfolding dispatch switch_to
dispatch-IsDispatched hhdm s c n = record {
  on = ground arith;
  queues = ground arith;
  total = ground arith;
  current = ground arith;
  tcbs = ground arith;
}

dispatch-IsQueued :
    (hhdm : ℕ) (s : Sched) (ls : Lines) (c n : ℕ)
    → IsQueued s ls
    → IsOff n ls
    → IsQueued (dispatch c n hhdm s) ls
dispatch-IsQueued hhdm s ls c n v o =
    let d = dispatch-IsDispatched hhdm s c n in
    let w = set_state-IsQueued s ls n running v o in
    record {
      chains = λ p. rw (d.tcbs, d.queues) (w.chains p);
      tails = λ p. rw d.queues (v.tails p);
      distinct = v.distinct;
      listed = λ p x h. rw d.tcbs (w.listed p x h);
      counted = d.total ∙ v.counted;
      room = v.room;
    }

-- The outcome of a call of `schedule` by the thread `c`.
pub record IsScheduled (s : Sched) (ls : Lines) (c : ℕ) (picked : Option ℕ) (n : ℕ) (s' : Sched)
    : Type 0 where
  pub right : IsRightNext s (requeued c s ls) picked
  pub next : or_else picked s.idle ≡ some n
  pub current : IsCurrent s' (lines_after picked s (requeued c s ls)) n
  pub runs : (s'.tcbs n).state ≡ running
  pub idle : s'.idle ≡ s.idle
  pub stays : n ≡ c → s'.trace ≡ s.trace
  pub switches : n ≢ c → head? s'.trace ≡ some (switch c n)
  pub priorities : (x : ℕ) → (s'.tcbs x).priority ≡ (s.tcbs x).priority

dispatch-trace :
    (hhdm : ℕ) (s : Sched) (c n : ℕ)
    → (n ≡ c → (dispatch c n hhdm s).trace ≡ s.trace)
      × (n ≢ c → head? (dispatch c n hhdm s).trace ≡ some (switch c n))
unfolding dispatch switch_to
dispatch-trace hhdm s c n = (
  λ e. ground (arith, ==-self c),
  λ e. elim (Bool-cases (n == c)) [ inl k ↦ absurd (e (==→eq n c k)) | inr k ↦ rw (dispatch, k) ],
)

dispatch-idle : (hhdm : ℕ) (s : Sched) (c n : ℕ) → (dispatch c n hhdm s).idle ≡ s.idle
unfolding dispatch switch_to
dispatch-idle hhdm s c n = ground arith

picked-small :
    (s s1 : Sched) (ls : Lines) (next : Option ℕ)
    → IsQueued s1 ls
    → IsKept s s1
    → IsRightNext s ls next
    → (x : ℕ) → next ≡ some x
    → (s.tcbs x).priority < num_priorities
picked-small s s1 ls none v k r x e = cc
picked-small s s1 ls (some y) v k r x e =
    ground (arith, v.listed (s.tcbs y).priority y r.0, k.priority y)

or_else-small :
    (s : Sched) (next : Option ℕ) (i n : ℕ)
    → ((x : ℕ) → next ≡ some x → (s.tcbs x).priority < num_priorities)
    → (s.tcbs i).priority < num_priorities
    → or_else next (some i) ≡ some n
    → (s.tcbs n).priority < num_priorities
or_else-small s none i n h k e = ground arith
or_else-small s (some x) i n h k e = h n e

next-exists : (next : Option ℕ) (i : ℕ) → (n : ℕ) × (or_else next (some i) ≡ some n)
next-exists none i = (i, refl)
next-exists (some x) i = (x, refl)

dispatch-IsScheduled :
    (hhdm : ℕ) (s s1 s2 : Sched) (ls : Lines) (c i n : ℕ) (next : Option ℕ)
    → IsCurrent s ls c
    → s.idle ≡ some i
    → (s.tcbs i).priority < num_priorities
    → IsQueued s1 (requeued c s ls)
    → IsKept s s1
    → IsChosen s s1 s2 (requeued c s ls) next
    → or_else next (some i) ≡ some n
    → IsScheduled s ls c next n (dispatch c n hhdm s2)
dispatch-IsScheduled hhdm s s1 s2 ls c i n next v idle small q k ch e =
    let d = dispatch-IsDispatched hhdm s2 c n in
    let fits = picked-small s s1 (requeued c s ls) next q k ch.right in
    let off = lines_after-IsOff s s1 (requeued c s ls) next n i q k ch.right e in
    let same : (x : ℕ) → ((dispatch c n hhdm s2).tcbs x).priority ≡ (s.tcbs x).priority =
      λ x. rw d.tcbs (ground (arith, ch.kept.priority x)) in
    record {
      right = ch.right;
      next = rw idle e;
      current = record {
        queued = dispatch-IsQueued hhdm s2 _ c n ch.queued off;
        on = d.on ∙ ch.kept.on ∙ v.on;
        current = ground (arith, d.current, ch.kept.current, v.current, ==→eq n c);
        off = off;
        small = rw (same n) (or_else-small s next i n fits small e);
        room =
            lines_after-room s (requeued c s ls) next fits ch.right
              (omega (arith, requeued-waiting s ls c v.small, v.room));
      };
      runs = rw d.tcbs (ground (arith, ==-self n));
      idle = dispatch-idle hhdm s2 c n ∙ ch.kept.idle;
      stays = λ h. (dispatch-trace hhdm s2 c n).0 h ∙ ch.kept.trace;
      switches = (dispatch-trace hhdm s2 c n).1;
      priorities = same;
    }

if_not-true : {A : Type 0} → (b : Bool) (x y : A) → b ≡ true → (if not b then x else y) ≡ y
if_not-true b x y e = rw e

schedule-steps :
    (hhdm : ℕ) (s s1 s2 : Sched) (c n : ℕ) (next : Option ℕ)
    → s.enabled ≡ true
    → s.current ≡ some c
    → reenqueue c s ≡ some s1
    → choose s1 ≡ some (next, s2)
    → or_else next s2.idle ≡ some n
    → schedule hhdm s ≡ some (dispatch c n hhdm s2)
unfolding schedule
schedule-steps hhdm s s1 s2 c n next on curr e1 e2 e3 =
    let first : (o : Option ℕ)
        → o ≡ some c
        → (o >>= λ c. reenqueue c s >>= λ s1.
            choose s1 >>= λ r. or_else r.0 r.1.idle >>= λ n. some (dispatch c n hhdm r.1))
          ≡ some (dispatch c n hhdm s2) =
      λ o e. rw (e, e1, e2, e3) in
    if_not-true s.enabled (some s) _ on ∙ first s.current curr

-- `schedule`, called with scheduling on by the thread `c`, an idle thread being there, the
-- priorities of both below 140 and the queues well formed with room for one more, never panics or
-- follows a null pointer. The thread that runs next is chosen among those waiting once `c` is back at
-- the end of its line if it still runs. Where a deadline task with a deadline below 2^64 - 1 is among
-- them, it is a deadline task with the earliest deadline; otherwise it is the head of the first line
-- that is not empty, and where no thread waits at all, the thread that is kept as the idle one (which
-- is also taken from a line like any other thread where it waits there). The thread is the
-- current thread then, its state is RUNNING, it waits in no line, and the queues are well formed and
-- hold exactly the others. The context switch from `c` to it is the last thing done where it is
-- another thread, and nothing is done where it is `c`.
pub schedule-IsScheduled :
    (hhdm : ℕ) (s : Sched) (ls : Lines) (c i : ℕ)
    → IsCurrent s ls c
    → s.idle ≡ some i
    → (s.tcbs i).priority < num_priorities
    → (picked : Option ℕ) × (n : ℕ) × (s' : Sched) × (schedule hhdm s ≡ some s')
      × IsScheduled s ls c picked n s'
unfolding schedule
schedule-IsScheduled hhdm s ls c i v idle small =
    let (s1, e1, q, k) = reenqueue-some s ls c v in
    let (next, s2, ch) = choose-IsChosen s s1 (requeued c s ls) q k in
    let (n, e) = next-exists next i in
    (
      next,
      n,
      dispatch c n hhdm s2,
      schedule-steps hhdm s s1 s2 c n next v.on v.current e1 ch.chosen (rw (ch.kept.idle, idle) e),
      dispatch-IsScheduled hhdm s s1 s2 ls c i n next v idle small q k ch e,
    )
