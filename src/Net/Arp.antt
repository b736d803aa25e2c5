-- ===== src/Net/Arp.antt =====
-- The address cache of net.cpp as a finite map with room for 16 addresses.
use vortex_os.Base.{
  ℕ, ◌+◌, ◌%◌, ◌<◌, ◌≡◌, ◌∙◌, sym, ◌⊎◌, inl, inr, true, false, ◌&&◌, Option, none, some, arith,
  ◌==◌, if◌then◌else◌, is_none, first_below, first_from-some, first_from-none, Bool-cases,
  Option-cases, update, ==→eq, ==→ne, ==-self, ne→==,
}
use vortex_os.Net.{MacAddr, ArpCache, arp_cache_size, entry_for, arp_cache_insert, arp_cache_lookup}

-- No address has two entries, and the next one to be replaced is one of the cache.
pub record IsCache (c : ArpCache) : Type 0 where
  pub next_small : c.next < arp_cache_size
  pub single :
      (ip i j : ℕ)
      → i < arp_cache_size
      → j < arp_cache_size
      → entry_for ip c i ≡ true
      → entry_for ip c j ≡ true
      → i ≡ j

pub lookup-at :
    (ip i : ℕ) (c : ArpCache)
    → IsCache c
    → i < arp_cache_size
    → entry_for ip c i ≡ true
    → arp_cache_lookup ip c ≡ some (c.entries i).mac
unfolding arp_cache_lookup
lookup-at ip i c v h e = elim (Option-cases (first_below arp_cache_size (entry_for ip c))) [
  | inl n ↦ absurd (
      ground
        (arith, first_from-none arp_cache_size 0 (entry_for ip c) n i (omega arith) (omega arith)))
  | inr (j, n) ↦
      let f = first_from-some arp_cache_size 0 (entry_for ip c) j n in
      let same : j ≡ i = v.single ip j i (omega (arith, f.below)) h f.passes e in
      rw (arp_cache_lookup, n, same)
]

pub lookup-missing :
    (ip : ℕ) (c : ArpCache)
    → ((i : ℕ) → i < arp_cache_size → entry_for ip c i ≡ false)
    → arp_cache_lookup ip c ≡ none
unfolding arp_cache_lookup
lookup-missing ip c h = elim (Option-cases (first_below arp_cache_size (entry_for ip c))) [
  | inl n ↦ rw (arp_cache_lookup, n)
  | inr (j, n) ↦
      let f = first_from-some arp_cache_size 0 (entry_for ip c) j n in
      absurd (ground (arith, f.passes, h j (omega (arith, f.below))))
]

-- The entry that holds an address, or that there is none.
found :
    (ip : ℕ) (c : ArpCache)
    → ((first_below arp_cache_size (entry_for ip c) ≡ none)
        × ((i : ℕ) → i < arp_cache_size → entry_for ip c i ≡ false))
      ⊎ ((i : ℕ) × (first_below arp_cache_size (entry_for ip c) ≡ some i)
          × (i < arp_cache_size)
          × (entry_for ip c i ≡ true))
found ip c = elim (Option-cases (first_below arp_cache_size (entry_for ip c))) [
  | inl n ↦
      inl (
        n,
        λ i h. first_from-none arp_cache_size 0 (entry_for ip c) n i (omega arith) (omega arith),
      )
  | inr (i, n) ↦
      let f = first_from-some arp_cache_size 0 (entry_for ip c) i n in
      inr (i, n, omega (arith, f.below), f.passes)
]

-- The two results of an insertion.
abbrev renewed : ℕ → MacAddr → ArpCache → ArpCache
renewed i mac c = record c { entries = update c.entries i (record (c.entries i) { mac = mac }) }

abbrev added : ℕ → MacAddr → ArpCache → ArpCache
added ip mac c = record {
  entries = update c.entries c.next (record { ip = ip; mac = mac; valid = true });
  next = (c.next + 1) % arp_cache_size;
}

renewed-IsCache : (i : ℕ) (mac : MacAddr) (c : ArpCache) → IsCache c → IsCache (renewed i mac c)
renewed-IsCache i mac c v = record {
  next_small = v.next_small;
  single =
      λ ip j k a b e f. v.single ip j k a b (ground (arith, ==→eq i j)) (ground (arith, ==→eq i k));
}

added-IsCache :
    (ip : ℕ) (mac : MacAddr) (c : ArpCache)
    → ((i : ℕ) → i < arp_cache_size → entry_for ip c i ≡ false)
    → IsCache c
    → IsCache (added ip mac c)
added-IsCache ip mac c h v = record {
  next_small = omega arith;
  single = λ ip' j k a b e f.
      ground
        (arith, v.single ip' j k a b, h j a, h k b, ==→eq c.next j, ==→eq c.next k, ==→eq ip ip');
}

pub arp_cache_insert-IsCache :
    (ip : ℕ) (mac : MacAddr) (c : ArpCache) → IsCache c → IsCache (arp_cache_insert ip mac c)
unfolding arp_cache_insert
arp_cache_insert-IsCache ip mac c v = elim (found ip c) [
  | inl (n, h) ↦ rw (arp_cache_insert, n) (added-IsCache ip mac c h v)
  | inr (i, n, h, e) ↦ rw (arp_cache_insert, n) (renewed-IsCache i mac c v)
]

-- What a lookup finds after an insertion. `full` tells whether the insertion replaces an entry.
abbrev pub after_insert : (ip : ℕ) → MacAddr → (ip' : ℕ) → ArpCache → Option MacAddr
after_insert ip mac ip' c =
    if ip == ip'
    then some mac
    else if is_none (arp_cache_lookup ip c) && entry_for ip' c c.next
    then none
    else arp_cache_lookup ip' c

renewed-lookup :
    (ip ip' i : ℕ) (mac : MacAddr) (c : ArpCache)
    → IsCache c
    → i < arp_cache_size
    → entry_for ip c i ≡ true
    → arp_cache_lookup ip' (renewed i mac c) ≡ after_insert ip mac ip' c
renewed-lookup ip ip' i mac c v h e =
    let w = renewed-IsCache i mac c v in
    elim (Bool-cases (ip == ip')) [
      | inl same ↦
          lookup-at ip' i (renewed i mac c) w h (ground (arith, ==→eq ip ip' same))
          ∙ rw (==-self i, same)
      | inr other ↦ elim (found ip' c) [
        | inl (n, miss) ↦
            lookup-missing ip' (renewed i mac c) (λ k a. ground (arith, miss k a, ==→eq i k))
            ∙ rw (lookup-at ip i c v h e, other) (sym (lookup-missing ip' c miss))
        | inr (j, n, a, f) ↦
            let apart : (i == j) ≡ false = ne→== i j (λ q.
              ground (
                arith,
                ==→eq (c.entries i).ip ip,
                ==→eq (c.entries j).ip ip',
                ==→ne ip ip' other,
              )) in
            lookup-at ip' j (renewed i mac c) w a (rw apart f)
            ∙ rw (apart, lookup-at ip i c v h e, other) (sym (lookup-at ip' j c v a f))
      ]
    ]

added-lookup :
    (ip ip' : ℕ) (mac : MacAddr) (c : ArpCache)
    → IsCache c
    → ((i : ℕ) → i < arp_cache_size → entry_for ip c i ≡ false)
    → arp_cache_lookup ip' (added ip mac c) ≡ after_insert ip mac ip' c
added-lookup ip ip' mac c v h =
    let w = added-IsCache ip mac c h v in
    elim (Bool-cases (ip == ip')) [
      | inl same ↦
          lookup-at ip' c.next (added ip mac c) w v.next_small (ground (arith, ==-self c.next))
          ∙ rw (==-self c.next, same)
      | inr other ↦ elim (Bool-cases (entry_for ip' c c.next)) [
        | inl old ↦
            lookup-missing ip' (added ip mac c) (λ k a.
              ground
                (arith, v.single ip' c.next k v.next_small a old, ==→ne c.next k, ==→eq c.next k))
            ∙ rw (lookup-missing ip c h, other, old)
        | inr new ↦ elim (found ip' c) [
          | inl (n, miss) ↦
              lookup-missing ip' (added ip mac c) (λ k a. ground (arith, miss k a, ==→eq c.next k))
              ∙ rw (lookup-missing ip c h, other, new) (sym (lookup-missing ip' c miss))
          | inr (j, n, a, f) ↦
              let apart : (c.next == j) ≡ false = ne→== c.next j (λ q. ground arith) in
              lookup-at ip' j (added ip mac c) w a (rw apart f)
              ∙ rw (apart, lookup-missing ip c h, other, new) (sym (lookup-at ip' j c v a f))
        ]
      ]
    ]

-- In a cache where no address has two entries, an insertion makes the lookup of its address give
-- the new hardware address and changes no other lookup, but for one: where the address had no
-- entry, the address whose entry was next to be replaced is not found any more.
pub arp_cache_insert-lookup :
    (ip : ℕ) (mac : MacAddr) (ip' : ℕ) (c : ArpCache)
    → IsCache c
    → IsCache (arp_cache_insert ip mac c)
      × (arp_cache_lookup ip' (arp_cache_insert ip mac c) ≡ after_insert ip mac ip' c)
unfolding arp_cache_insert
arp_cache_insert-lookup ip mac ip' c v = (
  arp_cache_insert-IsCache ip mac c v,
  elim (found ip c) [
    | inl (n, h) ↦ rw (arp_cache_insert, n) (added-lookup ip ip' mac c v h)
    | inr (i, n, h, e) ↦ rw (arp_cache_insert, n) (renewed-lookup ip ip' i mac c v h e)
  ],
)
