-- ===== src/Net/Checksum.antt =====
-- The Internet checksum of net.cpp: `ip_checksum`, and what a receiver finds in data that carries
-- its own checksum.
use vortex_os.Base.{
  ℕ, zero, suc, ◌+◌, ◌-◌, ◌*◌, ◌/◌, ◌%◌, ◌^◌, ◌≤◌, ◌<◌, ◌≡◌, ◌∙◌, refl, sym, ap, if◌then◌else◌,
  ◌==◌, update, Bool-cases, ==→eq, ==→ne, ◌⊎◌, inl, inr, arith,
}
use vortex_os.Net.{Bytes, ntohs, load16}

-- A 16-bit field written into a packet.
abbrev pub store16 : (at : ℕ) → ℕ → Bytes → Bytes
store16 at v packet = update (update packet at (v % 256)) (at + 1) (v / 256 % 256)

-- The sum of the first `n` words, in 32 bits.
unfoldable pub word_sum : (n : ℕ) → Bytes → ℕ
word_sum zero bytes = 0
word_sum (suc n) bytes = (word_sum n bytes + ntohs (load16 bytes (2 * n))) % 2 ^ 32

-- `while (sum >> 16) sum = (sum & 0xFFFF) + (sum >> 16);`, on fuel.
unfoldable pub fold_carries : (fuel : ℕ) → ℕ → ℕ
fold_carries zero sum = sum
fold_carries (suc fuel) sum =
    if sum / 2 ^ 16 == 0 then sum else fold_carries fuel (sum % 2 ^ 16 + sum / 2 ^ 16)

-- The sum before its carries are folded.
unfoldable pub raw_sum : Bytes → (len : ℕ) → ℕ
raw_sum bytes len =
    let sum = word_sum (len / 2) bytes in
    if len % 2 == 1 then (sum + bytes (len - 1) * 256) % 2 ^ 32 else sum

-- Two rounds are enough.
unfoldable pub ip_checksum : Bytes → (len : ℕ) → ℕ
ip_checksum bytes len = ntohs (65535 - fold_carries 2 (raw_sum bytes len))

-- The sum of 16-bit words as a residue, with 65535 in place of 0 for what is not 0.
abbrev ones_sum : ℕ → ℕ
ones_sum sum = if sum == 0 then 0 else (sum - 1) % 65535 + 1

fold-ones_sum : (sum : ℕ) → sum < 2 ^ 32 → fold_carries 2 sum ≡ ones_sum sum
unfolding fold_carries
fold-ones_sum sum h = ground arith

fold_small : (fuel sum : ℕ) → sum < 2 ^ 16 → fold_carries fuel sum ≡ sum
unfolding fold_carries
fold_small zero sum h = refl
fold_small (suc fuel) sum h = ground arith

fold_twice :
    (fuel sum : ℕ)
    → (sum % 2 ^ 16 + sum / 2 ^ 16) % 2 ^ 16 + (sum % 2 ^ 16 + sum / 2 ^ 16) / 2 ^ 16 < 2 ^ 16
    → fold_carries (2 + fuel) sum ≡ fold_carries 2 sum
unfolding fold_carries
fold_twice fuel sum h = ground (
  arith,
  fold_small fuel ((sum % 2 ^ 16 + sum / 2 ^ 16) % 2 ^ 16 + (sum % 2 ^ 16 + sum / 2 ^ 16) / 2 ^ 16)
      h,
)

-- The loop of `ip_checksum` ends: the carries of every 32-bit sum are folded in two rounds, and
-- with any further fuel the loop gives the same number, below 2 ^ 16.
pub fold_carries-ends :
    (fuel sum : ℕ)
    → sum < 2 ^ 32
    → (fold_carries (2 + fuel) sum ≡ fold_carries 2 sum) × (fold_carries 2 sum < 2 ^ 16)
unfolding fold_carries
fold_carries-ends fuel sum h =
    let once : sum % 2 ^ 16 + sum / 2 ^ 16 < 2 ^ 17 - 1 = omega arith in
    let twice : (sum % 2 ^ 16 + sum / 2 ^ 16) % 2 ^ 16 + (sum % 2 ^ 16 + sum / 2 ^ 16) / 2 ^ 16
        < 2 ^ 16 =
      omega arith in
    (fold_twice fuel sum twice, ground arith)

-- Every cell is a byte.
abbrev pub IsSmall : Bytes → Type 0
IsSmall bytes = (k : ℕ) → bytes k < 256

pub ntohs-bound : (n : ℕ) → n < 2 ^ 16 → ntohs n < 2 ^ 16
unfolding ntohs
ntohs-bound n h = omega arith

pub ntohs-ntohs : (n : ℕ) → n < 2 ^ 16 → ntohs (ntohs n) ≡ n
unfolding ntohs
ntohs-ntohs n h = omega arith

load16-bound : (packet : Bytes) (at : ℕ) → IsSmall packet → load16 packet at < 2 ^ 16
unfolding load16
load16-bound packet at s = omega (arith, s at, s (at + 1))

pub load16-store16 : (packet : Bytes) (at v : ℕ) → v < 2 ^ 16 → load16 (store16 at v packet) at ≡ v
unfolding load16
load16-store16 packet at v h = ground (arith)

load16-store16_apart :
    (packet : Bytes) (at i v : ℕ)
    → (at + 1 < i) ⊎ (i + 1 < at)
    → load16 (store16 at v packet) i ≡ load16 packet i
unfolding load16
load16-store16_apart packet at i v h = ground arith

word_sum-bound : (n : ℕ) (bytes : Bytes) → IsSmall bytes → word_sum n bytes ≤ n * 65535
unfolding word_sum
word_sum-bound zero bytes s = omega arith
word_sum-bound (suc n) bytes s = omega (
  arith,
  word_sum-bound n bytes s,
  ntohs-bound (load16 bytes (2 * n)) (load16-bound bytes (2 * n) s),
)

store16-IsSmall : (packet : Bytes) (at v : ℕ) → IsSmall packet → IsSmall (store16 at v packet)
store16-IsSmall packet at v s k = ground (arith, s k)

-- The words before the one that is written.
word_sum-store16_before :
    (n at v : ℕ) (bytes : Bytes) → 2 * n ≤ at → word_sum n (store16 at v bytes) ≡ word_sum n bytes
unfolding word_sum
word_sum-store16_before zero at v bytes h = refl
word_sum-store16_before (suc n) at v bytes h = rw (
  word_sum,
  word_sum-store16_before n at v bytes (omega arith),
  load16-store16_apart bytes at (2 * n) v (inr (omega arith)),
)

word_sum-store16_last :
    (n v : ℕ) (bytes : Bytes)
    → n < 2 ^ 15
    → v < 2 ^ 16
    → IsSmall bytes
    → word_sum (suc n) (store16 (2 * n) v bytes) ≡ word_sum n bytes + ntohs v
unfolding word_sum
word_sum-store16_last n v bytes b w s =
    let e = ap ntohs (load16-store16 bytes (2 * n) v w) in
    let before = word_sum-store16_before n (2 * n) v bytes (omega arith) in
    omega (arith, e, before, word_sum-bound n bytes s, ntohs-bound v w)

-- A word changes the sum by what it adds to that with 0 in its place.
word_sum-store16 :
    (n c v : ℕ) (bytes : Bytes)
    → c < n
    → n ≤ 2 ^ 15
    → v < 2 ^ 16
    → IsSmall bytes
    → word_sum n (store16 (2 * c) v bytes) ≡ word_sum n (store16 (2 * c) 0 bytes) + ntohs v
unfolding word_sum ntohs
word_sum-store16 zero c v bytes h b w s = absurd (omega arith)
word_sum-store16 (suc n) c v bytes h b w s = elim (Bool-cases (c == n)) [
  | inl e ↦ rw (==→eq c n e) (
      word_sum-store16_last n v bytes (omega arith) w s
      ∙ omega (arith, word_sum-store16_last n 0 bytes (omega arith) (omega arith) s))
  | inr e ↦
      let lower : c < n = omega (arith, ==→ne c n e) in
      let apart : (u : ℕ) → load16 (store16 (2 * c) u bytes) (2 * n) ≡ load16 bytes (2 * n) =
        λ u. load16-store16_apart bytes (2 * c) (2 * n) u (inl (omega arith)) in
      omega (
        arith,
        ap ntohs (apart v),
        ap ntohs (apart 0),
        word_sum-store16 n c v bytes lower (omega arith) w s,
        word_sum-bound n (store16 (2 * c) 0 bytes) (store16-IsSmall bytes (2 * c) 0 s),
        ntohs-bound (load16 bytes (2 * n)) (load16-bound bytes (2 * n) s),
        ntohs-bound v w,
      )
]

-- The same for the sum of all bytes, where the length is odd too.
raw_sum-store16 :
    (len c v : ℕ) (bytes : Bytes)
    → 2 * c + 1 < len
    → len < 2 ^ 16
    → v < 2 ^ 16
    → IsSmall bytes
    → raw_sum (store16 (2 * c) v bytes) len ≡ raw_sum (store16 (2 * c) 0 bytes) len + ntohs v
unfolding raw_sum
raw_sum-store16 len c v bytes h b w s =
    let e = word_sum-store16 (len / 2) c v bytes (omega arith) (omega arith) w s in
    let m =
      word_sum-bound (len / 2) (store16 (2 * c) 0 bytes) (store16-IsSmall bytes (2 * c) 0 s) in
    ground (arith, e, m, s (len - 1), ntohs-bound v w)

raw_sum-bound :
    (len : ℕ) (bytes : Bytes) → len < 2 ^ 16 → IsSmall bytes → raw_sum bytes len < 2 ^ 31
unfolding raw_sum
raw_sum-bound len bytes h s = ground (arith, word_sum-bound (len / 2) bytes s, s (len - 1))

checksum-ones_sum :
    (bytes : Bytes) (len : ℕ)
    → raw_sum bytes len < 2 ^ 32
    → ip_checksum bytes len ≡ ntohs (65535 - ones_sum (raw_sum bytes len))
unfolding ip_checksum
checksum-ones_sum bytes len h = rw (ip_checksum, fold-ones_sum (raw_sum bytes len) h)

ntohs-zero : (n : ℕ) → n < 2 ^ 16 → ntohs n ≡ 0 → n ≡ 0
unfolding ntohs
ntohs-zero n h e = omega arith

ntohs-residue : (n : ℕ) → ntohs n % 65535 ≡ 256 * n % 65535
unfolding ntohs
ntohs-residue n = omega arith

sum_complement : (sum : ℕ) → ones_sum (sum + (65535 - ones_sum sum)) ≡ 65535
sum_complement sum = ground arith

complement_unique :
    (sum n : ℕ) → ones_sum (sum + n) ≡ 65535 → n % 65535 ≡ (65535 - ones_sum sum) % 65535
complement_unique sum n e = ground arith

same_residue : (v k : ℕ) → ntohs v % 65535 ≡ ntohs k % 65535 → v % 65535 ≡ k % 65535
same_residue v k e = omega (arith, e, ntohs-residue v, ntohs-residue k)

full_sum : (n : ℕ) → ntohs (65535 - ones_sum n) ≡ 0 → ones_sum n ≡ 65535
full_sum n e = ground (arith, ntohs-zero (65535 - ones_sum n) (omega arith) e)

-- The checksum with the value `u` in the field, from the sum with 0 in it.
checksum_stored :
    (bytes : Bytes) (len c u : ℕ)
    → IsSmall bytes
    → len < 2 ^ 16
    → 2 * c + 1 < len
    → u < 2 ^ 16
    → ip_checksum (store16 (2 * c) u bytes) len
      ≡ ntohs (65535 - ones_sum (raw_sum (store16 (2 * c) 0 bytes) len + ntohs u))
checksum_stored bytes len c u s h in_len w =
    let stored = store16 (2 * c) u bytes in
    let small = raw_sum-bound len stored h (store16-IsSmall bytes (2 * c) u s) in
    checksum-ones_sum stored len (omega arith)
    ∙ ap (λ x. ntohs (65535 - ones_sum x)) (raw_sum-store16 len c u bytes in_len h w s)

-- A 16-bit field at an even offset inside the data holds the checksum that is computed while the
-- field is 0: the checksum of the data is then 0. Only that value leads to 0, apart from the two
-- forms 0 and 65535 of the same sum. The data are bytes, fewer than 2 ^ 16.
pub ip_checksum-verified :
    (bytes : Bytes) (len c v : ℕ)
    → IsSmall bytes
    → len < 2 ^ 16
    → 2 * c + 1 < len
    → v < 2 ^ 16
    → let k = ip_checksum (store16 (2 * c) 0 bytes) len in
      (ip_checksum (store16 (2 * c) k bytes) len ≡ 0)
      × (ip_checksum (store16 (2 * c) v bytes) len ≡ 0 → v % 65535 ≡ k % 65535)
unfolding ntohs
ip_checksum-verified bytes len c v s h in_len w =
    let zeroed = store16 (2 * c) 0 bytes in
    let sum = raw_sum zeroed len in
    let small = raw_sum-bound len zeroed h (store16-IsSmall bytes (2 * c) 0 s) in
    let k = ip_checksum zeroed len in
    let ke : k ≡ ntohs (65535 - ones_sum sum) = checksum-ones_sum zeroed len (omega arith) in
    let kb : k < 2 ^ 16 = rw ke (ntohs-bound (65535 - ones_sum sum) (omega arith)) in
    let kn : ntohs k ≡ 65535 - ones_sum sum =
      ap ntohs ke ∙ ntohs-ntohs (65535 - ones_sum sum) (omega arith) in
    (
      checksum_stored bytes len c k s h in_len kb
          ∙ ap (λ x. ntohs (65535 - ones_sum (sum + x))) kn
          ∙ ap (λ x. ntohs (65535 - x)) (sum_complement sum),
      λ e. same_residue v k (
          complement_unique sum (ntohs v)
            (full_sum (sum + ntohs v) (sym (checksum_stored bytes len c v s h in_len w) ∙ e))
          ∙ sym (ap (λ x. x % 65535) kn)),
    )

word_sum-same :
    (n : ℕ) (p q : Bytes) → ((k : ℕ) → k < 2 * n → p k ≡ q k) → word_sum n p ≡ word_sum n q
unfolding word_sum load16
word_sum-same zero p q h = refl
word_sum-same (suc n) p q h = rw (
  word_sum,
  word_sum-same n p q (λ k b. h k (omega arith)),
  h (2 * n) (omega arith),
  h (2 * n + 1) (omega arith),
)

-- The checksum reads the bytes before the length only.
pub ip_checksum-same :
    (len : ℕ) (p q : Bytes)
    → ((k : ℕ) → k < len → p k ≡ q k)
    → ip_checksum p len ≡ ip_checksum q len
unfolding ip_checksum raw_sum
ip_checksum-same len p q h = elim (Bool-cases (len % 2 == 1)) [
  | inl e ↦
      rw
        (
          e,
          word_sum-same (len / 2) p q (λ k b. h k (omega arith)),
          h (len - 1) (omega (arith, ==→eq (len % 2) 1 e)),
        )
        refl
  | inr e ↦ rw (e, word_sum-same (len / 2) p q (λ k b. h k (omega arith))) refl
]

pub ip_checksum-bound : (bytes : Bytes) (len : ℕ) → ip_checksum bytes len < 2 ^ 16
unfolding ip_checksum
ip_checksum-bound bytes len = ntohs-bound (65535 - fold_carries 2 (raw_sum bytes len)) (omega arith)
