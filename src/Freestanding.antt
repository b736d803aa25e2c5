-- ===== src/Freestanding.antt =====
-- The memory functions that compilers call: src/kernel/string.cpp. Memory is bytes by their addresses;
-- the pointer that is returned is the destination.
pub mod Copy
mod Tests
use vortex_os.Base.{ℕ, zero, suc, ◌+◌, ◌%◌, update}
use vortex_os.Net.{Bytes}

-- `for (i = from; i < from + n; ++i) d[i] = ch;`
unfoldable pub memset_from : (n from dest ch : ℕ) → Bytes → Bytes
memset_from zero from dest ch memory = memory
memset_from (suc n) from dest ch memory =
    memset_from n (from + 1) dest ch (update memory (dest + from) (ch % 256))

unfoldable pub memset : (dest ch count : ℕ) → Bytes → ℕ × Bytes
memset dest ch count memory = (dest, memset_from count 0 dest ch memory)

-- `for (i = from; i < from + n; ++i) d[i] = s[i];`
unfoldable pub memcpy_from : (n from dest src : ℕ) → Bytes → Bytes
memcpy_from zero from dest src memory = memory
memcpy_from (suc n) from dest src memory =
    memcpy_from n (from + 1) dest src (update memory (dest + from) (memory (src + from)))

unfoldable pub memcpy : (dest src count : ℕ) → Bytes → ℕ × Bytes
memcpy dest src count memory = (dest, memcpy_from count 0 dest src memory)
