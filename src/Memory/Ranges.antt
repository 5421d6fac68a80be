-- ===== src/Memory/Ranges.antt =====
-- The byte loops of `alloc_page` and `copy_user_page_table`, described byte by byte and word by word.
use riscvkernel_hit.Base.{ℕ, zero, suc, ◌+◌, ◌≤◌, ◌<◌, ◌≡◌, ◌⊎◌, refl, arith, update}
use riscvkernel_hit.Memory.Defs.{Mem, read64, zero_bytes, copy_bytes}
use riscvkernel_hit.Memory.Laws.{IsBytes, read64_ext}

pub zero_bytes-outside :
    (left i p : ℕ) (m : Mem) (b : ℕ)
    → (b < p + i) ⊎ (p + i + left ≤ b)
    → zero_bytes left i p m b ≡ m b
unfolding zero_bytes
zero_bytes-outside zero i p m b h = refl
zero_bytes-outside (suc left) i p m b h =
    ground (arith, zero_bytes-outside left (i + 1) p (update m (p + i) 0) b)

pub zero_bytes-inside :
    (left i p : ℕ) (m : Mem) (b : ℕ) → p + i ≤ b → b < p + i + left → zero_bytes left i p m b ≡ 0
unfolding zero_bytes
zero_bytes-inside zero i p m b lo hi = absurd (omega arith)
zero_bytes-inside (suc left) i p m b lo hi = ground (
  arith,
  zero_bytes-inside left (i + 1) p (update m (p + i) 0) b,
  zero_bytes-outside left (i + 1) p (update m (p + i) 0) b,
)

pub zero_bytes-IsBytes : (left i p : ℕ) (m : Mem) → IsBytes m → IsBytes (zero_bytes left i p m)
unfolding zero_bytes
zero_bytes-IsBytes zero i p m h = h
zero_bytes-IsBytes (suc left) i p m h =
    zero_bytes-IsBytes left (i + 1) p (update m (p + i) 0) (λ b. ground (arith, h b))

-- A cleared word.
pub read64-zero_bytes_inside :
    (n p : ℕ) (m : Mem) (a : ℕ) → p ≤ a → a + 8 ≤ p + n → read64 (zero_bytes n 0 p m) a ≡ 0
unfolding read64
read64-zero_bytes_inside n p m a lo hi = omega (
  arith,
  zero_bytes-inside n 0 p m a (omega arith) (omega arith),
  zero_bytes-inside n 0 p m (a + 1) (omega arith) (omega arith),
  zero_bytes-inside n 0 p m (a + 2) (omega arith) (omega arith),
  zero_bytes-inside n 0 p m (a + 3) (omega arith) (omega arith),
  zero_bytes-inside n 0 p m (a + 4) (omega arith) (omega arith),
  zero_bytes-inside n 0 p m (a + 5) (omega arith) (omega arith),
  zero_bytes-inside n 0 p m (a + 6) (omega arith) (omega arith),
  zero_bytes-inside n 0 p m (a + 7) (omega arith) (omega arith),
)

pub read64-zero_bytes_outside :
    (n p : ℕ) (m : Mem) (a : ℕ)
    → (a + 8 ≤ p) ⊎ (p + n ≤ a)
    → read64 (zero_bytes n 0 p m) a ≡ read64 m a
read64-zero_bytes_outside n p m a h =
    read64_ext m (zero_bytes n 0 p m) a (λ i lt. zero_bytes-outside n 0 p m (a + i) (ground arith))
      (zero_bytes-outside n 0 p m a (ground arith))

pub copy_bytes-outside :
    (left i dst src : ℕ) (m : Mem) (b : ℕ)
    → (b < dst + i) ⊎ (dst + i + left ≤ b)
    → copy_bytes left i dst src m b ≡ m b
unfolding copy_bytes
copy_bytes-outside zero i dst src m b h = refl
copy_bytes-outside (suc left) i dst src m b h =
    ground (arith, copy_bytes-outside left (i + 1) dst src (update m (dst + i) (m (src + i))) b)

pub copy_bytes-IsBytes :
    (left i dst src : ℕ) (m : Mem) → IsBytes m → IsBytes (copy_bytes left i dst src m)
unfolding copy_bytes
copy_bytes-IsBytes zero i dst src m h = h
copy_bytes-IsBytes (suc left) i dst src m h =
    copy_bytes-IsBytes left (i + 1) dst src (update m (dst + i) (m (src + i)))
      (λ b. ground (arith, h b, h (src + i)))

-- The copy of a range that lies apart from its source.
pub copy_bytes-inside :
    (left i dst src n : ℕ) (m : Mem) (k : ℕ)
    → (src + n ≤ dst) ⊎ (dst + n ≤ src)
    → i + left ≡ n
    → i ≤ k
    → k < n
    → copy_bytes left i dst src m (dst + k) ≡ m (src + k)
unfolding copy_bytes
copy_bytes-inside zero i dst src n m k apart e lo hi = absurd (omega arith)
copy_bytes-inside (suc left) i dst src n m k apart e lo hi = ground (
  arith,
  copy_bytes-inside left (i + 1) dst src n (update m (dst + i) (m (src + i))) k,
  copy_bytes-outside left (i + 1) dst src (update m (dst + i) (m (src + i))) (dst + k),
)
