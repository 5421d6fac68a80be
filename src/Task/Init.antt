-- ===== src/Task/Init.antt =====
-- `task_init`: a process with a new space, that starts at a function of the kernel's image.
use riscvkernel_hit.Base.{
  ℕ, ◌+◌, ◌*◌, ◌/◌, ◌^◌, ◌≤◌, ◌<◌, ◌≡◌, ◌≢◌, ◌⊎◌, inl, inr, refl, ◌∙◌, List, ◌∷◌, none, arith,
  length,
}
use riscvkernel_hit.Memory.Defs.{Mem, read64}
use riscvkernel_hit.Memory.Laws.{read64_ext}
use riscvkernel_hit.Kernel.Defs.{Kernel, Layout, set_task, set_stack}
use riscvkernel_hit.Page.Defs.{page_size}
use riscvkernel_hit.Page.FreeList.{IsPage-of_has}
use riscvkernel_hit.Page.Alloc.{Allocated, IsClear}
use riscvkernel_hit.Mmu.Defs.{slot}
use riscvkernel_hit.Mmu.Lookup.{lookup}
use riscvkernel_hit.Mmu.Tree.{Role, table, Spaces}
use riscvkernel_hit.Mmu.Frame.{
  TablesAgree, Spaces-frame, lookup-frame, got_data, role_data, role_data-kept,
}
use riscvkernel_hit.Mmu.Root.{role_root, root-Spaces, root-Grows, root-empty}
use riscvkernel_hit.Mmu.Grows.{HasImage, Grows, Grows-then, filled-Spaces, filled-Grows}
use riscvkernel_hit.Task.Frame.{task_trap_frame}
use riscvkernel_hit.Task.Start.{start_word, Framed, init_user_frame-Framed}
use riscvkernel_hit.Task.Maps.{IsLinked, space_pages}
use riscvkernel_hit.Task.Space.{SpaceReady, init_user_address_space-SpaceReady}

-- Memory that changes in the image only, of which no table and no free page notices.
module _ (l : Layout) {m : Mem} (m' : Mem) {head : ℕ} {role : ℕ → Role} {xs : List ℕ}
    (sp : Spaces l m head role xs) (same : (b : ℕ) → l.kernel_end ≤ b → m' b ≡ m b) where
  read64-above : (a : ℕ) → l.kernel_end ≤ a → read64 m' a ≡ read64 m a
  read64-above a h = read64_ext m m' a (λ i low. same (a + i) (omega (arith, h))) (same a h)

  image-TablesAgree : TablesAgree role m m'
  image-TablesAgree t r k n h i low =
      let page = sp.pages t r k n h in read64-above (slot t i) (omega (arith, page.above))

  image-Spaces : Spaces l m' head role xs
  image-Spaces =
      Spaces-frame {m = m} {m' = m'} sp image-TablesAgree
        λ x h. let page = IsPage-of_has xs x sp.frees.pages h in read64-above x page.above

image-same :
    (l : Layout) {m m' : Mem} {role role' : ℕ → Role} {pgd : ℕ} {S : ℕ → Type 0}
    → Grows m role m' role' pgd S
    → HasImage l role
    → (b : ℕ) → b < l.kernel_end
    → m' b ≡ m b
image-same l g image b low =
    let y : ℕ = b / page_size * page_size in
    g.contents y b (image y (omega arith) (omega (arith, low))) (omega arith) (omega arith)
      (omega arith)

-- `x` and `y` are the first two free pages: the root table and the stack of the process.
module _ (l : Layout) (lay : IsLinked l) (s : Kernel) (role : ℕ → Role) (x y : ℕ) (xs : List ℕ)
    (sp : Spaces l s.mem s.free_list role (x ∷ y ∷ xs)) (image : HasImage l role) (id func : ℕ)
    (small : func < 2 ^ 64) (inside : task_trap_frame l id + 256 ≤ l.kernel_end)
    (many : space_pages l ≤ length xs) where
  abbrev pub root_got : Allocated l s x (y ∷ xs)
  root_got = got_data l s role x (y ∷ xs) sp

  abbrev pub s_a : Kernel
  s_a = record s { mem = root_got.mem'; free_list = root_got.head' }

  abbrev pub role_a : ℕ → Role
  role_a = role_root l s role x (y ∷ xs) sp

  abbrev pub sp_a : Spaces l root_got.mem' root_got.head' role_a (y ∷ xs)
  sp_a = root-Spaces l s role x (y ∷ xs) sp

  abbrev pub stack_got : Allocated l s_a y xs
  stack_got = got_data l s_a role_a y xs sp_a

  abbrev pub s_b : Kernel
  s_b = set_stack id y (record s_a { mem = stack_got.mem'; free_list = stack_got.head' })

  abbrev pub role_b : ℕ → Role
  role_b = role_data l s_a role_a y xs sp_a

  abbrev pub sp_b : Spaces l stack_got.mem' stack_got.head' role_b xs
  sp_b = filled-Spaces l s_a role_a y xs sp_a stack_got.mem' (λ b h. refl)

  root_b : role_b x ≡ table x 2 0
  root_b = role_data-kept l s_a role_a y xs sp_a x x 2 0 (ground arith)

  taken-Grows : Grows s.mem role stack_got.mem' role_b x (λ _. Unit)
  taken-Grows =
      Grows-then (λ _. Unit) (root-Grows l s role x (y ∷ xs) sp)
        (filled-Grows l s_a role_a y xs sp_a stack_got.mem' (λ b h. refl) x) (λ n h. (tt, tt))

  pub frame : Framed l s_b id func
  frame = init_user_frame-Framed l s_b id func small

  above_frame : (b : ℕ) → l.kernel_end ≤ b → frame.mem' b ≡ stack_got.mem' b
  above_frame b h = frame.same b (inr (omega (arith, inside, h)))

  abbrev pub s_f : Kernel
  s_f =
      set_task id (record (s.tasks id) { ra = l.trap_return; sp = task_trap_frame l id })
        (record s_b { mem = frame.mem' })

  nothing_mapped : (va : ℕ) → lookup frame.mem' x va ≡ none
  nothing_mapped va =
      lookup-frame frame.mem' sp_b (image-TablesAgree l frame.mem' sp_b above_frame) 2 x x 0 va
        root_b
      ∙ (filled-Grows l s_a role_a y xs sp_a stack_got.mem' (λ b h. refl) x).lookups x va
          (ground arith) (inr tt)
      ∙ root-empty l s role x (y ∷ xs) sp va

  pub ready : SpaceReady l s_f role_b xs x y
  ready =
      init_user_address_space-SpaceReady l lay s_f role_b xs x y
        (image-Spaces l frame.mem' sp_b above_frame) root_b sp.frees.pages.1.0 many nothing_mapped

  pub image_b : HasImage l role_b
  image_b z al low = taken-Grows.others z (image z al low)

  pub image_ready : HasImage l ready.role'
  image_ready z al low = ready.grows.others z (image_b z al low)

  pub root_ready : ready.role' x ≡ table x 2 0
  root_ready = ready.grows.roles x x 2 0 root_b

  below : (b : ℕ) → b < l.kernel_end → ready.mem' b ≡ frame.mem' b
  below = image-same l ready.grows image_b

  pub words_ready :
      (k : ℕ) → k < 32 → read64 ready.mem' (task_trap_frame l id + 8 * k) ≡ start_word func k
  words_ready k low =
      let a : ℕ = task_trap_frame l id + 8 * k in
      read64_ext frame.mem' ready.mem' a (λ j lt. below (a + j) (omega (arith, inside)))
        (below a (omega (arith, inside)))
      ∙ frame.words k low

  pub image_kept :
      (b : ℕ)
      → b < l.kernel_end
      → (b < task_trap_frame l id) ⊎ (task_trap_frame l id + 256 ≤ b)
      → ready.mem' b ≡ s.mem b
  image_kept b low out = below b low ∙ frame.same b out ∙ image-same l taken-Grows image b low

  pub stack_clear : IsClear ready.mem' y
  stack_clear b lo hi =
      let page = sp.frees.pages.1.0 in
      ready.grows.contents y b (ground arith) page.aligned lo hi
      ∙ above_frame b (omega (arith, page.above, lo))
      ∙ stack_got.cleared b lo hi

  pub other_spaces :
      (pgd va : ℕ)
      → role pgd ≡ table pgd 2 0
      → pgd ≢ x
      → lookup ready.mem' pgd va ≡ lookup s.mem pgd va
  other_spaces pgd va tab ne =
      let tab_b : role_b pgd ≡ table pgd 2 0 = taken-Grows.roles pgd pgd 2 0 tab in
      ready.grows.lookups pgd va tab_b (inl ne)
      ∙ lookup-frame frame.mem' sp_b (image-TablesAgree l frame.mem' sp_b above_frame) 2 pgd pgd 0
          va tab_b
      ∙ taken-Grows.lookups pgd va tab (inl ne)
