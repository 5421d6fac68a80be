-- ===== src/Memory/Laws.antt =====
-- What a load sees after a store, after a cleared range and after a copied range.
use riscvkernel_hit.Base.{
  ℕ, ◌+◌, ◌-◌, ◌*◌, ◌/◌, ◌%◌, ◌^◌, ◌≤◌, ◌<◌, ◌≡◌, ◌⊎◌, arith, ltb, leb, ◌&&◌, Bool,
}
use riscvkernel_hit.Memory.Defs.{Mem, read64, write64}

abbrev pub IsBytes : Mem → Type 0
IsBytes m = (a : ℕ) → m a < 2 ^ 8

-- Every load is below 2 ^ 64.
pub read64-lt : (m : Mem) (a : ℕ) → IsBytes m → read64 m a < 2 ^ 64
unfolding read64
read64-lt m a h =
    omega (arith, h a, h (a + 1), h (a + 2), h (a + 3), h (a + 4), h (a + 5), h (a + 6), h (a + 7))

-- Eight equal bytes give equal loads.
pub read64_ext :
    (m m' : Mem) (a : ℕ)
    → ((i : ℕ) → i < 8 → m' (a + i) ≡ m (a + i))
    → m' a ≡ m a
    → read64 m' a ≡ read64 m a
unfolding read64
read64_ext m m' a h e = omega (
  arith,
  h 1 (omega arith),
  h 2 (omega arith),
  h 3 (omega arith),
  h 4 (omega arith),
  h 5 (omega arith),
  h 6 (omega arith),
  h 7 (omega arith),
)

-- A store changes nothing outside the eight bytes at its address.
pub write64-outside : (m : Mem) (a v b : ℕ) → (b < a) ⊎ (a + 8 ≤ b) → write64 m a v b ≡ m b
unfolding write64
write64-outside m a v b h = ground arith

byte-write64 : (m : Mem) (a v i : ℕ) → i < 8 → write64 m a v (a + i) ≡ v / 2 ^ (8 * i) % 2 ^ 8
unfolding write64
byte-write64 m a v i h =
    let e : a + i - a ≡ i = omega arith in
    let inside : (leb a (a + i) && ltb (a + i) (a + 8)) ≡ Bool.true = ground arith in rw (inside, e)

first-write64 : (m : Mem) (a v : ℕ) → write64 m a v a ≡ v % 2 ^ 8
unfolding write64
first-write64 m a v =
    let e : a - a ≡ 0 = omega arith in
    let inside : (leb a a && ltb a (a + 8)) ≡ Bool.true = ground arith in
    rw (inside, e) (omega arith)

pub read64-write64_self : (m : Mem) (a v : ℕ) → v < 2 ^ 64 → read64 (write64 m a v) a ≡ v
unfolding read64
read64-write64_self m a v h = omega (
  arith,
  first-write64 m a v,
  byte-write64 m a v 1 (omega arith),
  byte-write64 m a v 2 (omega arith),
  byte-write64 m a v 3 (omega arith),
  byte-write64 m a v 4 (omega arith),
  byte-write64 m a v 5 (omega arith),
  byte-write64 m a v 6 (omega arith),
  byte-write64 m a v 7 (omega arith),
)

-- A load from eight bytes apart from those stored.
pub read64-write64_apart :
    (m : Mem) (a v b : ℕ) → (b + 8 ≤ a) ⊎ (a + 8 ≤ b) → read64 (write64 m a v) b ≡ read64 m b
read64-write64_apart m a v b h =
    read64_ext m (write64 m a v) b (λ i lt. write64-outside m a v (b + i) (ground arith))
      (write64-outside m a v b (ground arith))

pub write64-IsBytes : (m : Mem) (a v : ℕ) → IsBytes m → IsBytes (write64 m a v)
unfolding write64
write64-IsBytes m a v h b = ground (arith, h b)
