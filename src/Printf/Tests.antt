-- ===== src/Printf/Tests.antt =====
-- The printf family on concrete calls.
use Prim.Native.Nat.{◌^◌, ◌-◌}
use riscvkernel_hit.Base.{◌≡◌, refl, [], ◌∷◌, some}
use riscvkernel_hit.Printf.Defs.{codes, word, text, digit_loop, printf}

printf_mixed :
    printf
      (codes "[%s] %d of 0x%x%%")
      (text (codes "ok") ∷ word (2 ^ 64 - 42) ∷ word 0x8000_0000 ∷ [])
    ≡ some (codes "[ok] -42 of 0x80000000%")
unfolding printf digit_loop
printf_mixed = refl
