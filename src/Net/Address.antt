-- ===== src/Net/Address.antt =====
-- The addresses of net.cpp in memory: the four bytes of an IPv4 address and the word that the
-- kernel keeps, in network byte order.
use vortex_os.Base.{ℕ, ◌+◌, ◌*◌, ◌/◌, ◌%◌, ◌^◌, ◌<◌, ◌≡◌, ◌∙◌, ap, arith}

-- `__builtin_bswap32`, which is `ntohl` and `htonl`.
unfoldable pub ntohl : ℕ → ℕ
ntohl n = n % 256 * 2 ^ 24 + n / 2 ^ 8 % 256 * 2 ^ 16 + n / 2 ^ 16 % 256 * 2 ^ 8 + n / 2 ^ 24

pub record Bytes4 : Type 0 where
  pub byte0 : ℕ
  pub byte1 : ℕ
  pub byte2 : ℕ
  pub byte3 : ℕ

-- `a << 24 | b << 16 | c << 8 | d` of four bytes, swapped.
unfoldable pub ip_from_bytes : Bytes4 → ℕ
ip_from_bytes b = ntohl (b.byte0 * 2 ^ 24 + b.byte1 * 2 ^ 16 + b.byte2 * 2 ^ 8 + b.byte3)

unfoldable pub ip_to_bytes : ℕ → Bytes4
ip_to_bytes ip =
    let n = ntohl ip in
    record {
      byte0 = n / 2 ^ 24 % 256;
      byte1 = n / 2 ^ 16 % 256;
      byte2 = n / 2 ^ 8 % 256;
      byte3 = n % 256;
    }

-- `__builtin_memcpy(&ip, bytes, 4)`.
unfoldable pub load_ip : Bytes4 → ℕ
load_ip b = b.byte0 + b.byte1 * 2 ^ 8 + b.byte2 * 2 ^ 16 + b.byte3 * 2 ^ 24

-- Four numbers below 256.
pub record AreBytes (b : Bytes4) : Type 0 where
  pub small0 : b.byte0 < 256
  pub small1 : b.byte1 < 256
  pub small2 : b.byte2 < 256
  pub small3 : b.byte3 < 256

from_bytes-load : (b : Bytes4) → AreBytes b → ip_from_bytes b ≡ load_ip b
unfolding ip_from_bytes ntohl load_ip
from_bytes-load b s = omega (arith, s.small0, s.small1, s.small2, s.small3)

ntohl-load :
    (b : Bytes4)
    → AreBytes b
    → ntohl (load_ip b) ≡ b.byte0 * 2 ^ 24 + b.byte1 * 2 ^ 16 + b.byte2 * 2 ^ 8 + b.byte3
unfolding ntohl load_ip
ntohl-load b s = omega (arith, s.small0, s.small1, s.small2, s.small3)

to_bytes-load : (b : Bytes4) → AreBytes b → ip_to_bytes (load_ip b) ≡ b
unfolding ip_to_bytes
to_bytes-load b s =
    let n = ntohl-load b s in
    let e0 : ntohl (load_ip b) / 2 ^ 24 % 256 ≡ b.byte0 =
      rw n (omega (arith, s.small0, s.small1, s.small2, s.small3)) in
    let e1 : ntohl (load_ip b) / 2 ^ 16 % 256 ≡ b.byte1 =
      rw n (omega (arith, s.small0, s.small1, s.small2, s.small3)) in
    let e2 : ntohl (load_ip b) / 2 ^ 8 % 256 ≡ b.byte2 =
      rw n (omega (arith, s.small0, s.small1, s.small2, s.small3)) in
    let e3 : ntohl (load_ip b) % 256 ≡ b.byte3 =
      rw n (omega (arith, s.small0, s.small1, s.small2, s.small3)) in
    rw (ip_to_bytes, e0, e1, e2, e3)

pub load_to_bytes : (ip : ℕ) → ip < 2 ^ 32 → load_ip (ip_to_bytes ip) ≡ ip
unfolding load_ip ip_to_bytes ntohl
load_to_bytes ip h = omega arith

-- Four bytes that `ip_from_bytes` puts together are the word that a copy of those bytes from a
-- packet gives, and `ip_to_bytes` gives them back; and for every 32-bit address, a copy of what
-- `ip_to_bytes` writes gives the address back.
pub ip_bytes-load :
    (b : Bytes4) (ip : ℕ)
    → AreBytes b
    → ip < 2 ^ 32
    → (ip_from_bytes b ≡ load_ip b)
      × (ip_to_bytes (ip_from_bytes b) ≡ b)
      × (load_ip (ip_to_bytes ip) ≡ ip)
ip_bytes-load b ip s h = (
  from_bytes-load b s,
  ap ip_to_bytes (from_bytes-load b s) ∙ to_bytes-load b s,
  load_to_bytes ip h,
)
