-- ===== src/Freestanding/Tests.antt =====
-- A run of string.cpp and the theorem at it.
use vortex_os.Base.{◌≡◌, inl, arith}
use vortex_os.Net.{Bytes}
use vortex_os.Freestanding.{memset, memcpy}
use vortex_os.Freestanding.Copy.{memset-memcpy}

abbrev numbers : Bytes
numbers k = k

-- The ranges overlap: from 12 to 10, 4 bytes.
memset-memcpy_example :
    ((memset 10 300 4 numbers).0 ≡ 10)
    × ((memset 10 300 4 numbers).1 11 ≡ 44)
    × ((memcpy 10 12 4 numbers).0 ≡ 10)
    × ((memcpy 10 12 4 numbers).1 11 ≡ 13)
memset-memcpy_example = memset-memcpy 10 12 300 4 11 numbers (inl (omega arith))
