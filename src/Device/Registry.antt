-- ===== src/Device/Registry.antt =====
-- The registry as a list of devices with different names.
use vortex_os.Base.{
  ℕ, suc, ◌+◌, ◌-◌, ◌%◌, ◌^◌, ◌≤◌, ◌<◌, ◌≡◌, ◌≢◌, refl, ◌∙◌, sym, ap, ◌⊎◌, inl, inr, Bool, true,
  false, Option, none, some, List, [], ◌∷◌, arith, ◌==◌, if◌then◌else◌, leb, is_none, has, erase,
  length, Distinct, Bool-cases, Option-cases, ==→eq, ==-self, length-erase, erase-Distinct,
  has-erase, Linked, Linked-same, Linked-erase, find, find-none, find-some, find_link-find,
  find_pointer-none, find_pointer-before, before, head_after, links_after, Text, same_text,
  same_text_self, same_text→eq,
}
use vortex_os.Device.{
  Devices, max_devices, link, device_find, prepend, device_register, overwrite, device_unregister,
}

-- `ls` are the registered devices, last registered first.
pub record IsRegistry (s : Devices) (ls : List ℕ) : Type 0 where
  pub linked : Linked (link s) s.list ls
  pub distinct : Distinct ls
  pub counted : s.count ≡ length ls
  pub bounded : s.count ≤ max_devices
  pub named :
      (x y : ℕ)
      → has x ls ≡ true
      → has y ls ≡ true
      → (s.devices x).name ≡ (s.devices y).name
      → x ≡ y

named_as : Text → Devices → ℕ → Bool
named_as name s x = same_text (s.devices x).name name

device_find-find :
    (name : Text) (s : Devices) (ls : List ℕ)
    → IsRegistry s ls
    → device_find (some name) s ≡ find (λ x. same_text (s.devices x).name name) ls
unfolding device_find
device_find-find name s ls v =
    find_link-find (suc s.count) (link s) _ s.list ls (omega (arith, v.counted)) v.linked

-- A lookup by a name finds the one registered device that has it, and nothing where no registered
-- device has it.
pub device_find-cases :
    (name : Text) (s : Devices) (ls : List ℕ)
    → IsRegistry s ls
    → ((device_find (some name) s ≡ none) × ((x : ℕ) → has x ls ≡ true → (s.devices x).name ≢ name))
      ⊎ ((x : ℕ) × (device_find (some name) s ≡ some x)
          × (has x ls ≡ true)
          × ((s.devices x).name ≡ name))
device_find-cases name s ls v =
    let e = device_find-find name s ls v in
    elim (Option-cases (device_find (some name) s)) [
      | inl n ↦ inl (
        n,
        λ x i q. ground (
          arith,
          find-none _ ls (sym e ∙ n) x i,
          same_text_self name,
          ap (λ t. same_text t name) q,
        ),
      )
      | inr (x, n) ↦
          let (i, t) = find-some _ ls x (sym e ∙ n) in
          inr (x, n, i, same_text→eq (s.devices x).name name t)
    ]

-- What `prepend` leaves of each device.
prepend-devices :
    (i x : ℕ) (s : Devices)
    → (((prepend i s).devices x).name ≡ (s.devices x).name)
      × (link (prepend i s) x ≡ (if i == x then s.list else link s x))
      × (((prepend i s).devices x).ops ≡ (if i == x then none else (s.devices x).ops))
unfolding prepend
prepend-devices i x s = ground arith

prepend-rest :
    (i : ℕ) (s : Devices)
    → ((prepend i s).list ≡ some i) × ((prepend i s).count ≡ (s.count + 1) % 2 ^ 32)
unfolding prepend
prepend-rest i s = ground arith

prepend-IsRegistry :
    (i : ℕ) (s : Devices) (ls : List ℕ)
    → IsRegistry s ls
    → s.count < max_devices
    → has i ls ≡ false
    → ((x : ℕ) → has x ls ≡ true → (s.devices x).name ≢ (s.devices i).name)
    → IsRegistry (prepend i s) (i ∷ ls)
prepend-IsRegistry i s ls v small new apart = record {
  linked = (
    (prepend-rest i s).0,
    rw ((prepend-devices i i s).1, ==-self i)
        (Linked-same (link s) (link (prepend i s)) s.list ls v.linked
          (λ x h. ground (arith, prepend-devices i x s, ==→eq i x))),
  );
  distinct = (new, v.distinct);
  counted = omega (arith, prepend-rest i s, v.counted);
  bounded = omega (arith, prepend-rest i s);
  named = λ x y h k e.
      let e' : (s.devices x).name ≡ (s.devices y).name =
        sym (prepend-devices i x s).0 ∙ e ∙ (prepend-devices i y s).0 in
      elim (Bool-cases (i == x)) [
        | inl a ↦ elim (Bool-cases (i == y)) [
          | inl b ↦ sym (==→eq i x a) ∙ ==→eq i y b
          | inr b ↦
              absurd
                (apart y (ground arith) (sym e' ∙ ap (λ n. (s.devices n).name) (sym (==→eq i x a))))
        ]
        | inr a ↦ elim (Bool-cases (i == y)) [
          | inl b ↦
              absurd
                (apart x (ground arith) (e' ∙ ap (λ n. (s.devices n).name) (sym (==→eq i y b))))
          | inr b ↦ v.named x y (ground arith) (ground arith) e'
        ]
      ];
}

-- Whether a registration is refused.
abbrev pub IsRefused : ℕ → Devices → List ℕ → Type 0
IsRefused i s ls =
    (s.count ≡ max_devices)
    ⊎ ((x : ℕ) × (has x ls ≡ true) × ((s.devices x).name ≡ (s.devices i).name))

-- In a well-formed registry, `device_register` refuses a device, and changes nothing, exactly when
-- 128 devices are registered or one with the same name is. Otherwise the registry stays well
-- formed with the device in front of the others, a lookup of its name finds it, and its driver's
-- operations are lost.
pub device_register-cases :
    (i : ℕ) (s : Devices) (ls : List ℕ)
    → IsRegistry s ls
    → ((device_register (some i) s ≡ (false, s)) × IsRefused i s ls)
      ⊎ ((s' : Devices) × (device_register (some i) s ≡ (true, s'))
          × (IsRefused i s ls → ⊥)
          × IsRegistry s' (i ∷ ls)
          × (device_find (some (s.devices i).name) s' ≡ some i)
          × ((s'.devices i).ops ≡ none))
unfolding device_register
device_register-cases i s ls v = elim (Bool-cases (leb max_devices s.count)) [
  | inl full ↦ inl (rw (device_register, full), inl (ground (arith, v.bounded)))
  | inr room ↦ elim (device_find-cases (s.devices i).name s ls v) [
    | inr (x, e, m, n) ↦ inl (rw (device_register, room, e), inr (x, m, n))
    | inl (e, apart) ↦
        let new : has i ls ≡ false = elim (Bool-cases (has i ls)) [
          | inl m ↦ absurd (apart i m refl)
          | inr m ↦ m
        ] in
        let w = prepend-IsRegistry i s ls v (ground arith) new apart in
        inr (
          prepend i s,
          rw (device_register, room, e),
          λ r. elim r [ inl f ↦ ground arith | inr (x, m, n) ↦ absurd (apart x m n) ],
          w,
          elim (device_find-cases (s.devices i).name (prepend i s) (i ∷ ls) w) [
            | inl (f, none_named) ↦
                absurd (none_named i (ground (arith, ==-self i)) (prepend-devices i i s).0)
            | inr (x, f, m, n) ↦
                f
                ∙ ap some
                    (w.named x i m (ground (arith, ==-self i)) (n ∙ sym (prepend-devices i i s).0))
          ],
          rw ((prepend-devices i i s).2, ==-self i),
        )
  ]
]

overwrite-parts :
    (at : Option ℕ) (i x : ℕ) (s : Devices)
    → (link (overwrite at i s) x ≡ links_after at (link s i) (link s) x)
      × ((overwrite at i s).list ≡ head_after at (link s i) s.list)
      × ((overwrite at i s).count ≡ (s.count + 2 ^ 32 - 1) % 2 ^ 32)
      × (((overwrite at i s).devices x).name ≡ (s.devices x).name)
unfolding overwrite
overwrite-parts none i x s = ground arith
overwrite-parts (some p) i x s = ground arith

overwrite-IsRegistry :
    (i : ℕ) (s : Devices) (ls : List ℕ)
    → IsRegistry s ls
    → has i ls ≡ true
    → IsRegistry (overwrite (before i none ls) i s) (erase i ls)
overwrite-IsRegistry i s ls v m =
    let at = before i none ls in
    record {
      linked = rw ((overwrite-parts at i i s).1) (
          Linked-same (links_after at (link s i) (link s)) (link (overwrite at i s)) _ (erase i ls)
            (Linked-erase i (link s) s.list ls v.linked v.distinct m)
            (λ x h. (overwrite-parts at i x s).0));
      distinct = erase-Distinct i ls v.distinct;
      counted = omega (arith, overwrite-parts at i i s, v.counted, v.bounded, length-erase i ls m);
      bounded = omega (arith, overwrite-parts at i i s, v.counted, v.bounded, length-erase i ls m);
      named = λ x y h k e.
          v.named x y (has-erase i x ls h) (has-erase i y ls k)
            (sym (overwrite-parts at i x s).3 ∙ e ∙ (overwrite-parts at i y s).3);
    }

list-some :
    (s : Devices) (ls : List ℕ) (i : ℕ)
    → Linked (link s) s.list ls
    → has i ls ≡ true
    → is_none s.list ≡ false
list-some s [] i c m = ground arith
list-some s (x ∷ l) i c m = rw c.0

-- In a well-formed registry, `device_unregister` refuses a device that is not registered and
-- changes nothing; it takes a registered one out, wherever it stands in the list, and leaves the
-- registry well formed with the others, in their order.
pub device_unregister-cases :
    (i : ℕ) (s : Devices) (ls : List ℕ)
    → IsRegistry s ls
    → ((has i ls ≡ false) × (device_unregister (some i) s ≡ (false, s)))
      ⊎ ((s' : Devices) × (has i ls ≡ true)
          × (device_unregister (some i) s ≡ (true, s'))
          × IsRegistry s' (erase i ls))
unfolding device_unregister
device_unregister-cases i s ls v =
    let long : length ls < suc s.count = omega (arith, v.counted) in
    elim (Bool-cases (has i ls)) [
      | inr out ↦
          let e = find_pointer-none (suc s.count) (link s) i none s.list ls long v.linked out in
          inl (
            out,
            elim (Bool-cases (is_none s.list)) [
              | inl n ↦ rw (device_unregister, n)
              | inr n ↦ rw (device_unregister, n, e)
            ],
          )
      | inl m ↦
          let e = find_pointer-before (suc s.count) (link s) i none s.list ls long v.linked m in
          inr (
            overwrite (before i none ls) i s,
            m,
            rw (device_unregister, list-some s ls i v.linked m, e),
            overwrite-IsRegistry i s ls v m,
          )
    ]
