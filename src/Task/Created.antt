-- ===== src/Task/Created.antt =====
-- `task_init` as a whole.
use riscvkernel_hit.Base.{
  ℕ, ◌+◌, ◌*◌, ◌^◌, ◌≤◌, ◌<◌, ◌≡◌, ◌≢◌, ◌⊎◌, refl, List, [], ◌∷◌, ◌++◌, arith, length, update,
}
use riscvkernel_hit.Memory.Defs.{read64}
use riscvkernel_hit.Printf.Defs.{word}
use riscvkernel_hit.Printf.Fits.{fits}
use riscvkernel_hit.Sched.Defs.{TaskState}
use riscvkernel_hit.Kernel.Defs.{Kernel, Layout, ok, set_state}
use riscvkernel_hit.Kernel.Say.{say-ok}
use riscvkernel_hit.Page.FreeList.{IsPage}
use riscvkernel_hit.Page.Alloc.{IsClear}
use riscvkernel_hit.Mmu.Pte.{mmu_make_satp}
use riscvkernel_hit.Mmu.Lookup.{lookup}
use riscvkernel_hit.Mmu.Tree.{Role, free, table, Spaces}
use riscvkernel_hit.Mmu.Grows.{HasImage}
use riscvkernel_hit.Task.Frame.{task_trap_frame}
use riscvkernel_hit.Task.Process.{bind_task_page_table, task_init}
use riscvkernel_hit.Task.Start.{start_word}
use riscvkernel_hit.Task.Maps.{IsLinked, space_pages}
use riscvkernel_hit.Task.Space.{StartSpace}
use riscvkernel_hit.Task.Init.{
  root_got, stack_got, frame, s_f, ready, image_ready, root_ready, words_ready, image_kept,
  stack_clear, other_spaces,
}

-- The kernel when `task_init` returns, from `s`: the new process, and what stays.
pub record Created (l : Layout) (s : Kernel) (role : ℕ → Role) (xs : List ℕ) (id func : ℕ)
    : Type 0 where
  pub root : ℕ
  pub stack : ℕ
  pub rw_page : ℕ
  pub ro_page : ℕ
  pub kernel : Kernel
  pub role' : ℕ → Role
  pub xs' : List ℕ
  pub returns : task_init l id func s ≡ ok tt kernel
  pub spaces : Spaces l kernel.mem kernel.free_list role' xs'
  pub is_root : role' root ≡ table root 2 0
  pub fresh : role root ≡ free
  pub image : HasImage l role'
  pub few : length xs ≤ length xs' + 2 + space_pages l
  pub space : StartSpace l kernel.mem root stack rw_page ro_page
  pub stack_page : IsPage l stack
  pub stack_clear : IsClear kernel.mem stack
  pub context : kernel.tasks id ≡ record (s.tasks id) {
    ra = l.trap_return;
    sp = task_trap_frame l id;
    satp = mmu_make_satp root;
  }
  pub words :
      (k : ℕ) → k < 32 → read64 kernel.mem (task_trap_frame l id + 8 * k) ≡ start_word func k
  pub user_stack : kernel.task_user_stacks id ≡ stack
  pub sched :
      kernel.sched
      ≡ record (s.sched) { task_states = update s.sched.task_states id TaskState.ready }
  pub other_tasks : (j : ℕ) → j ≢ id → kernel.tasks j ≡ s.tasks j
  pub other_spaces :
      (pgd va : ℕ)
      → role pgd ≡ table pgd 2 0
      → pgd ≢ root
      → lookup kernel.mem pgd va ≡ lookup s.mem pgd va
  pub image_same :
      (b : ℕ)
      → b < l.kernel_end
      → (b < task_trap_frame l id) ⊎ (task_trap_frame l id + 256 ≤ b)
      → kernel.mem b ≡ s.mem b
  pub machine :
      (kernel.cpu ≡ s.cpu)
      × (kernel.csrs ≡ s.csrs)
      × (kernel.root_page_table ≡ s.root_page_table)
      × (kernel.mtime ≡ s.mtime)

-- With the free pages for it, `task_init` returns.
pub task_init-Created :
    (l : Layout) (lay : IsLinked l) (s : Kernel) (role : ℕ → Role) (xs : List ℕ) (id func : ℕ)
    → Spaces l s.mem s.free_list role xs
    → HasImage l role
    → func < 2 ^ 64
    → task_trap_frame l id + 256 ≤ l.kernel_end
    → 2 + space_pages l ≤ length xs
    → Created l s role xs id func
unfolding task_init bind_task_page_table fits
task_init-Created l lay s role [] id func sp image small inside many = absurd (omega arith)
task_init-Created l lay s role (x ∷ []) id func sp image small inside many = absurd (omega arith)
task_init-Created l lay s role (x ∷ y ∷ xs) id func sp image small inside many' =
    let many : space_pages l ≤ length xs = omega (arith, many') in
    let r = ready l lay s role x y xs sp image id func small inside many in
    let before : Kernel = s_f l lay s role x y xs sp image id func small inside many in
    let bound : Kernel =
      set_state id TaskState.ready
        (bind_task_page_table id x (record before { mem = r.mem'; free_list = r.head' })) in
    let (out, said) =
      say-ok "[SYS] Process %d created! Private PGD at phys: 0x%x\n" (word id ∷ word x ∷ []) bound
        refl in
    record {
      root = x;
      stack = y;
      rw_page = r.rw_page;
      ro_page = r.ro_page;
      kernel = record bound { sent = s.sent ++ out };
      role' = r.role';
      xs' = r.xs';
      returns =
          rw
            (
              (root_got l lay s role x y xs sp image id func small inside many).returns,
              (stack_got l lay s role x y xs sp image id func small inside many).returns,
              (frame l lay s role x y xs sp image id func small inside many).returns,
              r.returns,
            )
            said;
      spaces = r.spaces;
      is_root = root_ready l lay s role x y xs sp image id func small inside many;
      fresh = sp.spare x (ground arith);
      image = image_ready l lay s role x y xs sp image id func small inside many;
      few = omega (arith, r.few);
      space = r.space;
      stack_page = sp.frees.pages.1.0;
      stack_clear = stack_clear l lay s role x y xs sp image id func small inside many;
      context = ground arith;
      words = words_ready l lay s role x y xs sp image id func small inside many;
      user_stack = ground arith;
      sched = refl;
      other_tasks = λ j ne. ground (arith, ne);
      other_spaces = other_spaces l lay s role x y xs sp image id func small inside many;
      image_same = image_kept l lay s role x y xs sp image id func small inside many;
      machine = (refl, refl, refl, refl);
    }
