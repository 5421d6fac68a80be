-- ===== src/Trap/Reports.antt =====
-- `page_fault` and `panic`: what the kernel writes before it waits for ever.
use mathlib.Core.List.{append_assoc}
use riscvkernel_hit.Base.{
  ℕ, ◌%◌, ◌^◌, ◌≡◌, refl, ap, List, [], ◌∷◌, ◌++◌, some, true, false, arith, ◌==◌, ◌||◌,
  if◌then◌else◌,
}
use riscvkernel_hit.Printf.Defs.{codes, word, va_int, print_num, printf}
use riscvkernel_hit.Printf.Number.{Reads, print_num-Reads}
use riscvkernel_hit.Printf.Fits.{va_int-lt}
use riscvkernel_hit.Printf.Pieces.{printf_text, printf_decimal, printf_hex}
use riscvkernel_hit.Kernel.Defs.{Kernel, hung}
use riscvkernel_hit.Kernel.Say.{say_sends}
use riscvkernel_hit.Trap.Defs.{page_fault, panic}

-- The lines of a page fault, and that of a panic: the numbers are in decimal with a sign, as an
-- `int`, or hexadecimal.
abbrev pub FaultReport : ℕ → ℕ → ℕ → List ℕ → Type 0
FaultReport code tval epc out =
    (cause : List ℕ) × (address : List ℕ) × (counter : List ℕ) × Reads 10 (va_int code) true cause
    × Reads 16 (tval % 2 ^ 64) false address
    × Reads 16 (epc % 2 ^ 64) false counter
    × (out
        ≡ codes "\n!!!! MMU PAGE FAULT DETECTED !!!!\n"
          ++ (codes "Cause: "
              ++ (cause
                  ++ (codes ", Bad VA: 0x"
                      ++ (address ++ (codes ", At EPC: 0x" ++ (counter ++ codes "\n")))))))

abbrev pub PanicReport : ℕ → ℕ → List ℕ → Type 0
PanicReport code epc out =
    (cause : List ℕ) × (counter : List ℕ) × Reads 10 (va_int code) true cause
    × Reads 16 (epc % 2 ^ 64) false counter
    × (out
        ≡ codes "\n!!! KERNEL PANIC: Cause "
          ++ (cause ++ (codes ", EPC 0x" ++ (counter ++ codes " !!!\n"))))

abbrev pub FatalReport : ℕ → ℕ → ℕ → List ℕ → Type 0
FatalReport code tval epc out =
    if code == 12 || code == 13 || code == 15
    then FaultReport code tval epc out
    else PanicReport code epc out

decimal :
    (w : ℕ)
    → (out : List ℕ) × (print_num (va_int w) 10 true ≡ some out) × Reads 10 (va_int w) true out
decimal w = print_num-Reads (va_int w) 10 true (va_int-lt w) (omega arith) (omega arith)

hexadecimal :
    (w : ℕ)
    → (out : List ℕ) × (print_num (w % 2 ^ 64) 16 false ≡ some out)
      × Reads 16 (w % 2 ^ 64) false out
hexadecimal w = print_num-Reads (w % 2 ^ 64) 16 false (omega arith) (omega arith) (omega arith)

pub page_fault-reports :
    (code tval epc : ℕ) (s : Kernel)
    → (out : List ℕ) × (page_fault code tval epc s ≡ hung (record s { sent = s.sent ++ out }))
      × FaultReport code tval epc out
unfolding page_fault
page_fault-reports code tval epc s =
    let (cause, e₁, r₁) = decimal code in
    let (address, e₂, r₂) = hexadecimal tval in
    let (counter, e₃, r₃) = hexadecimal epc in
    let head : List ℕ = codes "\n!!!! MMU PAGE FAULT DETECTED !!!!\n" in
    let line₃ : List ℕ = codes ", At EPC: 0x" ++ (counter ++ codes "\n") in
    let line₂ : List ℕ = codes ", Bad VA: 0x" ++ (address ++ line₃) in
    let line : List ℕ = codes "Cause: " ++ (cause ++ line₂) in
    let p₃ =
      printf_text (codes ", At EPC: 0x") (codes "x\n") (word epc ∷ []) (counter ++ codes "\n") refl
        (printf_hex epc (codes "\n") [] counter (codes "\n") e₃ (unfold printf in refl)) in
    let p₂ =
      printf_text (codes ", Bad VA: 0x") (codes "x, At EPC: 0x%x\n") (word tval ∷ word epc ∷ [])
        (address ++ line₃) refl
        (printf_hex tval (codes ", At EPC: 0x%x\n") (word epc ∷ []) address line₃ e₂ p₃) in
    let p₁ =
      printf_text (codes "Cause: ") (codes "d, Bad VA: 0x%x, At EPC: 0x%x\n")
        (word code ∷ word tval ∷ word epc ∷ []) (cause ++ line₂) refl
        (printf_decimal code (codes ", Bad VA: 0x%x, At EPC: 0x%x\n") (word tval ∷ word epc ∷ [])
          cause line₂ e₁ p₂) in
    let first =
      say_sends "\n!!!! MMU PAGE FAULT DETECTED !!!!\n" [] head s (unfold printf in refl) in
    let second =
      say_sends "Cause: %d, Bad VA: 0x%x, At EPC: 0x%x\n" (word code ∷ word tval ∷ word epc ∷ [])
        line (record s { sent = s.sent ++ head }) p₁ in
    (
      head ++ line,
      rw (first, second) (ap (λ o. hung (record s { sent = o })) (append_assoc s.sent head line)),
      (cause, address, counter, r₁, r₂, r₃, refl),
    )

pub panic-reports :
    (code epc : ℕ) (s : Kernel)
    → (out : List ℕ) × (panic code epc s ≡ hung (record s { sent = s.sent ++ out }))
      × PanicReport code epc out
unfolding panic
panic-reports code epc s =
    let (cause, e₁, r₁) = decimal code in
    let (counter, e₂, r₂) = hexadecimal epc in
    let line₂ : List ℕ = codes ", EPC 0x" ++ (counter ++ codes " !!!\n") in
    let line : List ℕ = codes "\n!!! KERNEL PANIC: Cause " ++ (cause ++ line₂) in
    let p₂ =
      printf_text (codes ", EPC 0x") (codes "x !!!\n") (word epc ∷ []) (counter ++ codes " !!!\n")
        refl
        (printf_hex epc (codes " !!!\n") [] counter (codes " !!!\n") e₂ (unfold printf in refl)) in
    let p₁ =
      printf_text (codes "\n!!! KERNEL PANIC: Cause ") (codes "d, EPC 0x%x !!!\n")
        (word code ∷ word epc ∷ []) (cause ++ line₂) refl
        (printf_decimal code (codes ", EPC 0x%x !!!\n") (word epc ∷ []) cause line₂ e₁ p₂) in
    let sends =
      say_sends "\n!!! KERNEL PANIC: Cause %d, EPC 0x%x !!!\n" (word code ∷ word epc ∷ []) line s
        p₁ in
    (line, rw sends refl, (cause, counter, r₁, r₂, refl))
