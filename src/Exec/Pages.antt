-- ===== src/Exec/Pages.antt =====
-- The loop over the pages of one segment: each page of it is mapped and filled.
use riscvkernel_hit.Base.{
  ℕ, zero, suc, ◌+◌, ◌*◌, ◌/◌, ◌%◌, ◌^◌, ◌≤◌, ◌<◌, ◌≡◌, ◌≢◌, ◌⊎◌, inl, inr, refl, ◌∙◌, List, [],
  ◌∷◌, Bool, true, false, ◌==◌, ltb, arith, length, some, Bool-cases, bit_or, bit_and_high,
  if◌then◌else◌,
}
use riscvkernel_hit.Memory.Defs.{Mem}
use riscvkernel_hit.Kernel.Defs.{Kernel, Layout, Run}
use riscvkernel_hit.Page.Defs.{page_size}
use riscvkernel_hit.Page.FreeList.{IsPage}
use riscvkernel_hit.Mmu.Lookup.{missing-le, lookup}
use riscvkernel_hit.Mmu.Tree.{Role, table, other, Spaces}
use riscvkernel_hit.Mmu.Map.{leaf_entry, map_page-Mapped}
use riscvkernel_hit.Mmu.Access.{Access, bit, permits, allows}
use riscvkernel_hit.Mmu.Frame.{got_data, role_data, role_data-kept}
use riscvkernel_hit.Mmu.Grows.{
  page_no, Grows, Grows-self, Grows-then, Builds, Mapped-Grows, filled-Spaces, filled-Grows,
}
use riscvkernel_hit.Exec.Elf.{Image, Phdr}
use riscvkernel_hit.Exec.Load.{load_segment_flags, fill_page, load_pages}
use riscvkernel_hit.Exec.Fill.{segment_byte, InRange, fill_page_lem, fill_page-SameOutside}

-- The page at `v` of the space of `pgd` is a page of data with the permissions and the bytes that
-- the segment gives it.
pub record Loaded (m : Mem) (role : ℕ → Role) (pgd : ℕ) (app : Image) (p : Phdr) (v : ℕ)
    : Type 0 where
  pub phys : ℕ
  pub aligned : phys % page_size ≡ 0
  pub below : phys < 2 ^ 56
  pub is_data : role phys ≡ other
  pub maps : lookup m pgd v ≡ some (leaf_entry phys (load_segment_flags p))
  pub bytes : (o : ℕ) → o < page_size → m (phys + o) ≡ segment_byte app p (v + o)

pub Loaded-Grows :
    {m m' : Mem} {role role' : ℕ → Role} {pgd : ℕ} {app : Image} {p : Phdr} {S : ℕ → Type 0} (v : ℕ)
    → role pgd ≡ table pgd 2 0
    → Loaded m role pgd app p v
    → Grows m role m' role' pgd S
    → S (page_no v)
    → Loaded m' role' pgd app p v
Loaded-Grows {pgd} v tab here g spared = record {
  phys = here.phys;
  aligned = here.aligned;
  below = here.below;
  is_data = g.others here.phys here.is_data;
  maps = g.lookups pgd v tab (inr spared) ∙ here.maps;
  bytes = λ o low.
      g.contents here.phys (here.phys + o) here.is_data here.aligned (omega arith) (omega arith)
      ∙ here.bytes o low;
}

pub load_segment_flags_lem :
    (p : Phdr) → (load_segment_flags p < 1024) × (load_segment_flags p % 2 ≡ 1)
unfolding load_segment_flags
load_segment_flags_lem p = ground arith

-- The program header grants the access, by PF_R, PF_W and PF_X.
abbrev pub segment_permits : Access → Phdr → Bool
segment_permits a p = permits a (bit 2 p.p_flags) (bit 1 p.p_flags) (bit 0 p.p_flags)

-- The flags of `load_segment_flags`, by the three tests that it makes.
granted : Bool → Bool → Bool → ℕ
granted r w x =
    let f : ℕ = if r then 0x13 else 0x11 in
    let g : ℕ = if w then bit_or f 4 else f in if x then bit_or g 8 else g

granted-allows : (a : Access) (r w x : Bool) → allows a (granted r w x) ≡ permits a r w x
unfolding granted
granted-allows Access.load true true true = refl
granted-allows Access.load true true false = refl
granted-allows Access.load true false true = refl
granted-allows Access.load true false false = refl
granted-allows Access.load false w x = ground arith
granted-allows Access.store r w x = ground arith
granted-allows Access.fetch r w x = ground arith

load_segment_flags-granted :
    (p : Phdr)
    → load_segment_flags p ≡ granted (bit 2 p.p_flags) (bit 1 p.p_flags) (bit 0 p.p_flags)
unfolding load_segment_flags granted
load_segment_flags-granted p =
    ground
      (arith, bit_and_high 0 1 p.p_flags, bit_and_high 1 1 p.p_flags, bit_and_high 2 1 p.p_flags)

-- The entries of a segment's pages allow what the program header grants, and nothing else.
pub load_segment_flags-allows :
    (a : Access) (p : Phdr) → allows a (load_segment_flags p) ≡ segment_permits a p
load_segment_flags-allows a p =
    rw (load_segment_flags-granted p)
      (granted-allows a (bit 2 p.p_flags) (bit 1 p.p_flags) (bit 0 p.p_flags))

module _ (l : Layout) (app : Image) (p : Phdr) (fits : InRange p) (pgd : ℕ) where
  -- One round of the loop.
  record PageStep (s : Kernel) (role : ℕ → Role) (xs : List ℕ) (v : ℕ) : Type 0 where
    pub mem' : Mem
    pub head' : ℕ
    pub role' : ℕ → Role
    pub xs' : List ℕ
    pub goes :
        (fuel end : ℕ)
        → v < end
        → load_pages (suc fuel) app pgd p v end s
          ≡ load_pages fuel app pgd p
              (v + page_size)
              end
              (record s { mem = mem'; free_list = head' })
    pub spaces : Spaces l mem' head' role' xs'
    pub few : length xs ≤ length xs' + 3
    pub grows : Grows s.mem role mem' role' pgd (λ n. n ≢ page_no v)
    pub loaded : Loaded mem' role' pgd app p v

  page_step :
      (s : Kernel) (role : ℕ → Role) (xs : List ℕ) (v : ℕ)
      → Spaces l s.mem s.free_list role xs
      → role pgd ≡ table pgd 2 0
      → 3 ≤ length xs
      → v % page_size ≡ 0
      → v < 2 ^ 39
      → PageStep s role xs v
  unfolding load_pages
  page_step s role [] v sp tab three al top = absurd (omega arith)
  page_step s role (x ∷ xs) v sp tab three al top =
      let page : IsPage l x = sp.frees.pages.0 in
      let a = got_data l s role x xs sp in
      let m₁ : Mem = fill_page app p v x a.mem' in
      let s₁ : Kernel = record s { mem = m₁; free_list = a.head' } in
      let flags : ℕ = load_segment_flags p in
      let (small, odd) = load_segment_flags_lem p in
      let filled = fill_page-SameOutside app p v x a.mem' fits al top page.aligned in
      let role₁ = role_data l s role x xs sp in
      let w =
        map_page-Mapped {l = l} s₁ role₁ xs pgd v x flags (filled-Spaces l s role x xs sp m₁ filled)
          (role_data-kept l s role x xs sp pgd pgd 2 0 tab) (omega (arith, missing-le m₁ 2 pgd v))
          page.aligned (omega (arith, page.below)) small odd in
      let is_data : role₁ x ≡ other = ground arith in
      record {
        mem' = w.mem';
        head' = w.head';
        role' = w.role';
        xs' = w.xs';
        goes = λ fuel end lt.
            let more : ltb v end ≡ true = ground arith in
            rw (more, load_pages) (rw (a.returns, w.returns));
        spaces = w.spaces;
        few = omega (arith, w.few, missing-le m₁ 2 pgd v);
        grows =
            Grows-then (λ n. n ≢ page_no v) (filled-Grows l s role x xs sp m₁ filled pgd)
              (Mapped-Grows w) (λ n ne. (tt, ne));
        loaded = record {
          phys = x;
          aligned = page.aligned;
          below = omega (arith, page.below);
          is_data = w.others x is_data;
          maps = w.here;
          bytes = λ o low.
              w.contents x (x + o) is_data page.aligned (omega arith) (omega arith)
              ∙ fill_page_lem app p v x a.mem' fits al top page.aligned o low;
        };
      }

  -- The pages that lie before page `v` or behind the `n` pages from there on.
  abbrev pub Beyond : ℕ → ℕ → ℕ → Type 0
  Beyond v n k = (k < v / page_size) ⊎ (v / page_size + n ≤ k)

  -- A run that has loaded `n` pages from `v` on.
  pub record PagesLoaded (s : Kernel) (role : ℕ → Role) (xs : List ℕ) (v n : ℕ) (r : Run (Unit {0}))
      : Type 0 where
    pub builds : Builds l s role xs pgd (Beyond v n) (3 * n) r
    pub loaded : (j : ℕ) → j < n → Loaded builds.mem' builds.role' pgd app p (v + j * page_size)

  pages_none :
      (fuel : ℕ) (s : Kernel) (role : ℕ → Role) (xs : List ℕ) (v : ℕ)
      → Spaces l s.mem s.free_list role xs
      → PagesLoaded s role xs v 0 (load_pages (suc fuel) app pgd p v (v + 0 * page_size) s)
  unfolding load_pages
  pages_none fuel s role xs v sp = record {
    builds = record {
      mem' = s.mem;
      head' = s.free_list;
      role' = role;
      xs' = xs;
      returns =
          let done : ltb v (v + 0 * page_size) ≡ false = ground arith in rw (done, load_pages);
      spaces = sp;
      few = omega arith;
      grows = Grows-self s.mem role pgd (Beyond v 0);
    };
    loaded = λ j low. absurd (omega arith);
  }

  pages_more :
      (fuel end n : ℕ) (s : Kernel) (role : ℕ → Role) (xs : List ℕ) (v : ℕ)
      → role pgd ≡ table pgd 2 0
      → v % page_size ≡ 0
      → v + suc n * page_size ≤ 2 ^ 39
      → v < end
      → (a : PageStep s role xs v)
      → PagesLoaded
          (record s { mem = a.mem'; free_list = a.head' })
          a.role'
          a.xs'
          (v + page_size)
          n
          (load_pages fuel app pgd p
            (v + page_size)
            end
            (record s { mem = a.mem'; free_list = a.head' }))
      → PagesLoaded s role xs v (suc n) (load_pages (suc fuel) app pgd p v end s)
  pages_more fuel end n s role xs v tab al top lt a later =
      let b = later.builds in
      record {
        builds = record {
          mem' = b.mem';
          head' = b.head';
          role' = b.role';
          xs' = b.xs';
          returns = a.goes fuel end lt ∙ b.returns;
          spaces = b.spaces;
          few = omega (arith, a.few, b.few);
          grows =
              Grows-then (Beyond v (suc n)) a.grows b.grows
                (λ k out. (ground (arith, out, al, top), ground (arith, out, al, top)));
        };
        loaded = λ j low. elim (Bool-cases (j == 0)) [
          | inl e ↦
              let first : v + j * page_size ≡ v = ground arith in
              rw first (
                Loaded-Grows v (a.grows.roles pgd pgd 2 0 tab) a.loaded b.grows
                  (ground (arith, al, top)))
          | inr e ↦ one_of j low (ground arith)
        ];
      }
    where
      one_of :
          (j : ℕ)
          → j < suc n
          → j ≢ 0
          → Loaded later.builds.mem' later.builds.role' pgd app p (v + j * page_size)
      one_of zero low ne = absurd (ne refl)
      one_of (suc j) low ne =
          let same : v + suc j * page_size ≡ v + page_size + j * page_size = omega arith in
          rw same (later.loaded j (omega arith))

  -- The loop over `n` pages ends.
  pub load_pages-loaded :
      (n fuel : ℕ) (s : Kernel) (role : ℕ → Role) (xs : List ℕ) (v end : ℕ)
      → Spaces l s.mem s.free_list role xs
      → role pgd ≡ table pgd 2 0
      → 3 * n ≤ length xs
      → v % page_size ≡ 0
      → end ≡ v + n * page_size
      → end ≤ 2 ^ 39
      → n < fuel
      → PagesLoaded s role xs v n (load_pages fuel app pgd p v end s)
  load_pages-loaded n zero s role xs v end sp tab many al e top enough = absurd (omega arith)
  load_pages-loaded zero (suc fuel) s role xs v end sp tab many al e top enough =
      rw e (pages_none fuel s role xs v sp)
  load_pages-loaded (suc n) (suc fuel) s role xs v end sp tab many al e top enough =
      let a = page_step s role xs v sp tab (omega arith) al (omega (arith, e)) in
      pages_more fuel end n s role xs v tab al (omega (arith, e)) (omega (arith, e)) a (
        load_pages-loaded n fuel (record s { mem = a.mem'; free_list = a.head' }) a.role' a.xs'
          (v + page_size) end a.spaces (a.grows.roles pgd pgd 2 0 tab) (omega (arith, a.few))
          (omega (arith, al)) (omega (arith, e)) top (omega arith))
