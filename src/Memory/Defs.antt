-- ===== src/Memory/Defs.antt =====
-- Loads, stores and the byte loops of the kernel over a memory held as a function.
use riscvkernel_hit.Base.{
  ℕ, zero, suc, ◌+◌, ◌-◌, ◌*◌, ◌/◌, ◌%◌, ◌^◌, ltb, leb, ◌&&◌, if◌then◌else◌, update,
}

-- The byte at each physical address.
abbrev pub Mem : Type 0
Mem = ℕ → ℕ

-- `*(uint64_t *)a`
unfoldable pub read64 : Mem → ℕ → ℕ
read64 m a =
    m a
    + 2 ^ 8 * m (a + 1)
    + 2 ^ 16 * m (a + 2)
    + 2 ^ 24 * m (a + 3)
    + 2 ^ 32 * m (a + 4)
    + 2 ^ 40 * m (a + 5)
    + 2 ^ 48 * m (a + 6)
    + 2 ^ 56 * m (a + 7)

-- `*(uint64_t *)a = v`, for a value below 2 ^ 64.
unfoldable pub write64 : Mem → ℕ → ℕ → Mem
write64 m a v b = if leb a b && ltb b (a + 8) then v / 2 ^ (8 * (b - a)) % 2 ^ 8 else m b

-- `for (int i = 0; i < n; i++) p[i] = 0;` with the rounds that are left and the index.
unfoldable pub zero_bytes : ℕ → ℕ → ℕ → Mem → Mem
zero_bytes zero i p m = m
zero_bytes (suc left) i p m = zero_bytes left (i + 1) p (update m (p + i) 0)

-- `for (b = 0; b < n; b++) dst[b] = src[b];` with the rounds that are left and the index.
unfoldable pub copy_bytes : ℕ → ℕ → ℕ → ℕ → Mem → Mem
copy_bytes zero b dst src m = m
copy_bytes (suc left) b dst src m =
    copy_bytes left (b + 1) dst src (update m (dst + b) (m (src + b)))
