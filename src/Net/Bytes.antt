-- ===== src/Net/Bytes.antt =====
-- Bytes in memory and byte order (include/Types_util.hpp, src/Types_util.cpp). The target is
-- little-endian, as include/Config.hpp's `ip_to_str` takes it to be, so `ntohs` and `ntohl` swap.
use high_performance_gaming.Common.{
  ℕ, zero, suc, ◌+◌, ◌*◌, ◌/◌, ◌%◌, ◌^◌, ◌≤◌, ◌<◌, ◌≡◌, ◌⊎◌, arith,
}
use high_performance_gaming.Common.Array.{update}

-- The bytes from a base pointer on; an offset is a pointer into them.
abbrev pub Memory : Type 0
Memory = ℕ → ℕ

abbrev pub u16_mod : ℕ
u16_mod = 2 ^ 16

abbrev pub u32_mod : ℕ
u32_mod = 2 ^ 32

-- Loads and stores of `uint16_t` and `uint32_t`, least byte first.
unfoldable pub load16 : Memory → ℕ → ℕ
load16 m i = m i + 256 * m (i + 1)

unfoldable pub load32 : Memory → ℕ → ℕ
load32 m i = load16 m i + 65536 * load16 m (i + 2)

unfoldable pub store16 : Memory → ℕ → ℕ → Memory
store16 m i v = update (update m i (v % 256)) (i + 1) (v / 256 % 256)

unfoldable pub store32 : Memory → ℕ → ℕ → Memory
store32 m i v = store16 (store16 m i (v % 65536)) (i + 2) (v / 65536)

-- `static_cast<uint16_t>((be << 8) | (be >> 8))`: the halves share no bit, so `|` adds them.
unfoldable pub ntohs : ℕ → ℕ
ntohs v = v % 256 * 256 + v / 256 % 256

-- `IPv4Net::to_host` and, the same swap, `IPv4Host::to_net`
unfoldable pub ntohl : ℕ → ℕ
unfolding ntohs
ntohl v = ntohs (v % 65536) * 65536 + ntohs (v / 65536)

-- Two ranges of bytes have none in common.
abbrev pub Apart : ℕ → ℕ → ℕ → ℕ → Type 0
Apart i m j n = (i + m ≤ j) ⊎ (j + n ≤ i)

pub ntohs-lt : (v : ℕ) → ntohs v < 65536
unfolding ntohs
ntohs-lt v = omega arith

-- Swapping twice gives the word back.
pub ntohs-ntohs : (v : ℕ) → v < 65536 → ntohs (ntohs v) ≡ v
unfolding ntohs
ntohs-ntohs v h = omega arith

pub ntohl-lt : (v : ℕ) → ntohl v < 4294967296
unfolding ntohl
ntohl-lt v = omega arith

pub ntohl-ntohl : (v : ℕ) → v < 4294967296 → ntohl (ntohl v) ≡ v
unfolding ntohl
ntohl-ntohl v h = omega arith

pub load16-store16 : (m : Memory) (i v : ℕ) → v < 65536 → load16 (store16 m i v) i ≡ v
unfolding load16 store16
load16-store16 m i v h = ground arith

pub load16-store16_ne :
    (m : Memory) (i v j : ℕ) → Apart i 2 j 2 → load16 (store16 m i v) j ≡ load16 m j
unfolding load16 store16
load16-store16_ne m i v j h = ground arith

pub load8-store16_ne : (m : Memory) (i v j : ℕ) → Apart i 2 j 1 → store16 m i v j ≡ m j
unfolding store16
load8-store16_ne m i v j h = ground arith

pub load32-store16_ne :
    (m : Memory) (i v j : ℕ) → Apart i 2 j 4 → load32 (store16 m i v) j ≡ load32 m j
unfolding load32
load32-store16_ne m i v j h =
    omega (
      arith,
      load16-store16_ne m i v j (omega arith),
      load16-store16_ne m i v (j + 2) (omega arith),
    )

pub load32-store32 : (m : Memory) (i v : ℕ) → v < 4294967296 → load32 (store32 m i v) i ≡ v
unfolding load32 store32
load32-store32 m i v h = omega (
  arith,
  load16-store16_ne (store16 m i (v % 65536)) (i + 2) (v / 65536) i (omega arith),
  load16-store16 m i (v % 65536) (omega arith),
  load16-store16 (store16 m i (v % 65536)) (i + 2) (v / 65536) (omega arith),
)

pub load16-store32_ne :
    (m : Memory) (i v j : ℕ) → Apart i 4 j 2 → load16 (store32 m i v) j ≡ load16 m j
unfolding store32
load16-store32_ne m i v j h = omega (
  arith,
  load16-store16_ne (store16 m i (v % 65536)) (i + 2) (v / 65536) j (omega arith),
  load16-store16_ne m i (v % 65536) j (omega arith),
)

pub load32-store32_ne :
    (m : Memory) (i v j : ℕ) → Apart i 4 j 4 → load32 (store32 m i v) j ≡ load32 m j
unfolding load32
load32-store32_ne m i v j h =
    omega (
      arith,
      load16-store32_ne m i v j (omega arith),
      load16-store32_ne m i v (j + 2) (omega arith),
    )

pub load8-store32_ne : (m : Memory) (i v j : ℕ) → Apart i 4 j 1 → store32 m i v j ≡ m j
unfolding store32
load8-store32_ne m i v j h = omega (
  arith,
  load8-store16_ne (store16 m i (v % 65536)) (i + 2) (v / 65536) j (omega arith),
  load8-store16_ne m i (v % 65536) j (omega arith),
)

-- Every cell holds a byte.
abbrev pub IsBytes : Memory → Type 0
IsBytes m = (i : ℕ) → m i < 256

pub load16-lt : (m : Memory) (i : ℕ) → IsBytes m → load16 m i < 65536
unfolding load16
load16-lt m i b = omega (arith, b i, b (i + 1))

pub load32-lt : (m : Memory) (i : ℕ) → IsBytes m → load32 m i < 4294967296
unfolding load32
load32-lt m i b = omega (arith, load16-lt m i b, load16-lt m (i + 2) b)

pub store16-IsBytes : (m : Memory) (i v : ℕ) → IsBytes m → IsBytes (store16 m i v)
unfolding store16
store16-IsBytes m i v b j = ground (arith, b j)

pub store32-IsBytes : (m : Memory) (i v : ℕ) → IsBytes m → IsBytes (store32 m i v)
unfolding store32
store32-IsBytes m i v b = store16-IsBytes _ (i + 2) (v / 65536) (store16-IsBytes m i (v % 65536) b)

-- The 16-bit words of `n` words from `at` on, in host order, added up.
unfoldable pub sum_words : Memory → ℕ → ℕ → ℕ
sum_words m at zero = 0
sum_words m at (suc n) = ntohs (load16 m at) + sum_words m (at + 2) n
