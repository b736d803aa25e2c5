-- ===== src/Freestanding/Copy.antt =====
-- What the loops of string.cpp leave in memory.
use vortex_os.Base.{
  ℕ, zero, suc, ◌+◌, ◌-◌, ◌%◌, ◌≤◌, ◌≡◌, ◌∙◌, ap, ◌⊎◌, inl, inr, refl, ◌&&◌, if◌then◌else◌, leb,
  ltb, ◌==◌, update, Bool-cases, ==→eq, ==→ne, arith,
}
use vortex_os.Net.{Bytes}
use vortex_os.Freestanding.{memset, memset_from, memcpy, memcpy_from}

memset_from-byte :
    (n from dest ch a : ℕ) (memory : Bytes)
    → memset_from n from dest ch memory a
      ≡ (if leb (dest + from) a && ltb a (dest + from + n) then ch % 256 else memory a)
unfolding memset_from
memset_from-byte zero from dest ch a memory = ground arith
memset_from-byte (suc n) from dest ch a memory =
    memset_from-byte n (from + 1) dest ch a (update memory (dest + from) (ch % 256)) ∙ ground arith

-- The loop forwards, where no byte is read after it was written.
memcpy_from-byte :
    (n from dest src a : ℕ) (memory : Bytes)
    → (dest ≤ src) ⊎ (src + (from + n) ≤ dest)
    → memcpy_from n from dest src memory a ≡ (
        if leb (dest + from) a && ltb a (dest + from + n)
        then memory (src + (a - dest))
        else memory a)
unfolding memcpy_from
memcpy_from-byte zero from dest src a memory h = ground arith
memcpy_from-byte (suc n) from dest src a memory h =
    let v = memory (src + from) in
    memcpy_from-byte n (from + 1) dest src a (update memory (dest + from) v) (omega arith)
    ∙ elim (Bool-cases (dest + from == a)) [
      | inl e ↦
          let same = ==→eq (dest + from) a e in
          let back : src + (a - dest) ≡ src + from = omega (arith, same) in
          ground (arith, same, ap memory back)
      | inr e ↦ ground (arith, ==→ne (dest + from) a e)
    ]

-- `memset` returns its destination and sets each byte of the range to the lowest 8 bits of `ch`;
-- `memcpy`, where the destination does not start inside the source, returns its destination and
-- leaves in each byte of the range what the source held there before, although they may overlap.
-- All other memory stays as it is.
pub memset-memcpy :
    (dest src ch count a : ℕ) (memory : Bytes)
    → (dest ≤ src) ⊎ (src + count ≤ dest)
    → let is_inside = leb dest a && ltb a (dest + count) in
      ((memset dest ch count memory).0 ≡ dest)
      × ((memset dest ch count memory).1 a ≡ (if is_inside then ch % 256 else memory a))
      × ((memcpy dest src count memory).0 ≡ dest)
      × ((memcpy dest src count memory).1 a
          ≡ (if is_inside then memory (src + (a - dest)) else memory a))
unfolding memset memcpy
memset-memcpy dest src ch count a memory h =
    let start : dest + 0 ≡ dest = omega arith in
    (
      refl,
      memset_from-byte count 0 dest ch a memory ∙ rw start refl,
      refl,
      memcpy_from-byte count 0 dest src a memory (omega arith) ∙ rw start refl,
    )
