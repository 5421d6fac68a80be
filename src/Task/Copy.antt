-- ===== src/Task/Copy.antt =====
-- `trapframe_copy`: the words of the copy.
use riscvkernel_hit.Base.{
  ℕ, zero, suc, ◌+◌, ◌*◌, ◌≤◌, ◌<◌, ◌≡◌, ◌≢◌, ◌⊎◌, inl, inr, refl, ◌∙◌, ◌==◌, arith, Bool-cases,
}
use riscvkernel_hit.Memory.Defs.{Mem, read64, write64}
use riscvkernel_hit.Memory.Laws.{
  IsBytes, read64-lt, read64_ext, write64-outside, read64-write64_self, read64-write64_apart,
  write64-IsBytes,
}
use riscvkernel_hit.Task.Frame.{copy_words}

-- Two frames of 32 words that share no byte.
abbrev pub FramesApart : ℕ → ℕ → Type 0
FramesApart dst src = (dst + 256 ≤ src) ⊎ (src + 256 ≤ dst)

pub copy_words-outside :
    (left i dst src : ℕ) (m : Mem) (b : ℕ)
    → (b < dst + 8 * i) ⊎ (dst + 8 * (i + left) ≤ b)
    → copy_words left i dst src m b ≡ m b
unfolding copy_words
copy_words-outside zero i dst src m b h = refl
copy_words-outside (suc left) i dst src m b h =
    copy_words-outside left (i + 1) dst src (write64 m (dst + 8 * i) (read64 m (src + 8 * i))) b
      (ground arith)
    ∙ write64-outside m (dst + 8 * i) (read64 m (src + 8 * i)) b (ground arith)

-- The first word of the rest, after all later ones were written.
first_word :
    (left i dst src : ℕ) (m : Mem)
    → IsBytes m
    → read64 (copy_words (suc left) i dst src m) (dst + 8 * i) ≡ read64 m (src + 8 * i)
unfolding copy_words
first_word left i dst src m h =
    let v : ℕ = read64 m (src + 8 * i) in
    let m' : Mem = write64 m (dst + 8 * i) v in
    let later : Mem = copy_words left (i + 1) dst src m' in
    read64_ext m' later (dst + 8 * i)
      (λ j low. copy_words-outside left (i + 1) dst src m' (dst + 8 * i + j) (inl (omega arith)))
      (copy_words-outside left (i + 1) dst src m' (dst + 8 * i) (inl (omega arith)))
    ∙ read64-write64_self m (dst + 8 * i) v (read64-lt m (src + 8 * i) h)

-- Between frames that are apart every word is the word of the source.
pub copy_words_lem :
    (left i dst src : ℕ) (m : Mem) (k : ℕ)
    → IsBytes m
    → FramesApart dst src
    → i + left ≤ 32
    → i ≤ k
    → k < i + left
    → read64 (copy_words left i dst src m) (dst + 8 * k) ≡ read64 m (src + 8 * k)
unfolding copy_words
copy_words_lem zero i dst src m k h apart top lo hi = absurd (omega arith)
copy_words_lem (suc left) i dst src m k h apart top lo hi = elim (Bool-cases (k == i)) [
  | inl here ↦ let e : k ≡ i = ground arith in rw e (first_word left i dst src m h)
  | inr other ↦
      let ne : k ≢ i = ground arith in
      let m' : Mem = write64 m (dst + 8 * i) (read64 m (src + 8 * i)) in
      copy_words_lem left (i + 1) dst src m' k
        (write64-IsBytes m (dst + 8 * i) (read64 m (src + 8 * i)) h) apart (omega arith)
        (omega (arith, ne)) (omega arith)
      ∙ read64-write64_apart m (dst + 8 * i) (read64 m (src + 8 * i)) (src + 8 * k) (ground arith)
]
