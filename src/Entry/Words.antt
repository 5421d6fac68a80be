-- ===== src/Entry/Words.antt =====
-- What the series of stores leaves in the frame, and what the series of loads takes from it.
use riscvkernel_hit.Base.{
  ℕ, zero, suc, ◌+◌, ◌*◌, ◌^◌, ◌≤◌, ◌<◌, ◌≡◌, ◌≢◌, ◌⊎◌, inl, inr, refl, ◌∙◌, List, [], ◌∷◌, true,
  false, ◌==◌, arith, has, All, Bool-cases, update,
}
use riscvkernel_hit.Memory.Defs.{Mem, read64, write64}
use riscvkernel_hit.Memory.Laws.{read64-write64_self, read64-write64_apart, write64-outside}
use riscvkernel_hit.Entry.Defs.{count_from, save_words, load_words}

pub has-count_from : (left k x : ℕ) → k ≤ x → x < k + left → has x (count_from left k) ≡ true
unfolding count_from
has-count_from zero k x lo hi = absurd (omega arith)
has-count_from (suc left) k x lo hi = elim (Bool-cases (x == k)) [
  | inl here ↦ ground (arith, here)
  | inr other ↦
      let ne : x ≢ k = ground (arith, other) in
      ground (arith, has-count_from left (k + 1) x (omega (arith, ne)) (omega arith))
]

pub save_words-outside :
    (ks : List ℕ) (regs : ℕ → ℕ) (sp : ℕ) (m : Mem) (b : ℕ)
    → All (λ k. k < 32) ks
    → (b < sp) ⊎ (sp + 256 ≤ b)
    → save_words ks regs sp m b ≡ m b
unfolding save_words
save_words-outside [] regs sp m b small h = refl
save_words-outside (k ∷ ks) regs sp m b (low, small) h =
    save_words-outside ks regs sp (write64 m (sp + 8 * k) (regs k)) b small h
    ∙ write64-outside m (sp + 8 * k) (regs k) b (ground arith)

-- A word that is not stored stays.
save_words-other :
    (ks : List ℕ) (regs : ℕ → ℕ) (sp : ℕ) (m : Mem) (x : ℕ)
    → has x ks ≡ false
    → read64 (save_words ks regs sp m) (sp + 8 * x) ≡ read64 m (sp + 8 * x)
unfolding save_words
save_words-other [] regs sp m x h = refl
save_words-other (k ∷ ks) regs sp m x h =
    let ne : x ≢ k = ground (arith, h) in
    save_words-other ks regs sp (write64 m (sp + 8 * k) (regs k)) x (ground (arith, h))
    ∙ read64-write64_apart m (sp + 8 * k) (regs k) (sp + 8 * x) (ground (arith, ne))

pub save_words_lem :
    (ks : List ℕ) (regs : ℕ → ℕ) (sp : ℕ) (m : Mem) (x : ℕ)
    → regs x < 2 ^ 64
    → has x ks ≡ true
    → read64 (save_words ks regs sp m) (sp + 8 * x) ≡ regs x
unfolding save_words
save_words_lem [] regs sp m x low h = absurd (ground arith)
save_words_lem (k ∷ ks) regs sp m x low h =
    let m' : Mem = write64 m (sp + 8 * k) (regs k) in
    elim (Bool-cases (has x ks)) [
      | inl later ↦ save_words_lem ks regs sp m' x low later
      | inr last ↦
          let e : x ≡ k = ground (arith, h, last) in
          save_words-other ks regs sp m' x last
          ∙ rw (← e) (read64-write64_self m (sp + 8 * x) (regs x) low)
    ]

load_words-other :
    (ks : List ℕ) (sp : ℕ) (m : Mem) (regs : ℕ → ℕ) (x : ℕ)
    → has x ks ≡ false
    → load_words ks sp m regs x ≡ regs x
unfolding load_words
load_words-other [] sp m regs x h = refl
load_words-other (k ∷ ks) sp m regs x h =
    load_words-other ks sp m (update regs k (read64 m (sp + 8 * k))) x (ground (arith, h))
    ∙ ground (arith, h)

pub load_words_lem :
    (ks : List ℕ) (sp : ℕ) (m : Mem) (regs : ℕ → ℕ) (x : ℕ)
    → has x ks ≡ true
    → load_words ks sp m regs x ≡ read64 m (sp + 8 * x)
unfolding load_words
load_words_lem [] sp m regs x h = absurd (ground arith)
load_words_lem (k ∷ ks) sp m regs x h =
    let regs' : ℕ → ℕ = update regs k (read64 m (sp + 8 * k)) in
    elim (Bool-cases (has x ks)) [
      | inl later ↦ load_words_lem ks sp m regs' x later
      | inr last ↦
          let e : x ≡ k = ground (arith, h, last) in
          load_words-other ks sp m regs' x last ∙ rw e (ground arith)
    ]
