-- ===== src/Exec/Segments.antt =====
-- All loadable segments of an image, one behind the other.
use riscvkernel_hit.Base.{
  ℕ, ◌+◌, ◌-◌, ◌*◌, ◌/◌, ◌≤◌, ◌<◌, ◌≡◌, ◌⊎◌, inl, inr, refl, List, [], ◌∷◌, true, arith, length,
  All, Bool-cases, if◌then◌else◌,
}
use riscvkernel_hit.Memory.Defs.{Mem}
use riscvkernel_hit.Kernel.Defs.{Kernel, Layout, Run}
use riscvkernel_hit.Page.Defs.{page_size}
use riscvkernel_hit.Mmu.Tree.{Role, table, Spaces}
use riscvkernel_hit.Mmu.Grows.{page_no, Grows, Grows-self, Grows-then, Builds}
use riscvkernel_hit.Exec.Elf.{Image, Phdr}
use riscvkernel_hit.Exec.Validate.{is_load}
use riscvkernel_hit.Exec.Accept.{
  first_no, limit_no, ApartBelowTop, AllApart, first_page_lem, last_page_lem,
}
use riscvkernel_hit.Exec.Load.{load_segment, load_segments}
use riscvkernel_hit.Exec.Fill.{InRange}
use riscvkernel_hit.Exec.Pages.{Loaded, Loaded-Grows, PagesLoaded, load_pages-loaded}

abbrev pub page_count : Phdr → ℕ
page_count p = limit_no p - first_no p

-- All pages that the loadable segments of a list need.
unfoldable pub needed : List Phdr → ℕ
needed [] = 0
needed (p ∷ later) = if is_load p then page_count p + needed later else needed later

abbrev pub AllInRange : List Phdr → Type 0
AllInRange ps = All (λ p. is_load p ≡ true → InRange p) ps

module _ (l : Layout) (app : Image) (pgd : ℕ) where
  load_segment-loaded :
      (p : Phdr) (fits : InRange p) (s : Kernel) (role : ℕ → Role) (xs : List ℕ)
      → Spaces l s.mem s.free_list role xs
      → role pgd ≡ table pgd 2 0
      → 3 * page_count p ≤ length xs
      → PagesLoaded l app p fits pgd s role xs
          (first_no p * page_size)
          (page_count p)
          (load_segment app pgd p s)
  unfolding load_segment
  load_segment-loaded p fits s role xs sp tab many =
      rw
        (
          first_page_lem p (omega (arith, fits.in_space)),
          last_page_lem p (omega (arith, fits.in_space)),
        )
        (load_pages-loaded l app p fits pgd (page_count p)
          ((limit_no p * page_size - first_no p * page_size) / page_size + 1) s role xs
          (first_no p * page_size) (limit_no p * page_size) sp tab many (omega arith) (omega arith)
          (omega (arith, fits.in_space)) (omega arith))

  -- The pages that none of the segments covers.
  abbrev pub Clear : List Phdr → ℕ → Type 0
  Clear ps k = All (λ p. is_load p ≡ true → (k < first_no p) ⊎ (limit_no p ≤ k)) ps

  -- Every page of a segment is loaded.
  abbrev pub SegmentLoaded : Mem → (ℕ → Role) → Phdr → Type 0
  SegmentLoaded m role p =
      (n : ℕ) → first_no p ≤ n → n < limit_no p → Loaded m role pgd app p (n * page_size)

  pub record SegmentsLoaded (s : Kernel) (role : ℕ → Role) (xs : List ℕ) (ps : List Phdr)
      (r : Run (Unit {0})) : Type 0 where
    pub builds : Builds l s role xs pgd (Clear ps) (3 * needed ps) r
    pub loaded : All (λ p. is_load p ≡ true → SegmentLoaded builds.mem' builds.role' p) ps

  pages-segment :
      (p : Phdr) (fits : InRange p) (m : Mem) (role : ℕ → Role)
      → ((j : ℕ)
          → j < page_count p
          → Loaded m role pgd app p (first_no p * page_size + j * page_size))
      → SegmentLoaded m role p
  pages-segment p fits m role each n lo hi =
      let same : n * page_size ≡ first_no p * page_size + (n - first_no p) * page_size =
        omega arith in
      rw same (each (n - first_no p) (omega arith))

  -- A page of a segment is clear of later segments with pages apart from its own.
  Clear-of_apart :
      (p : Phdr) (later : List Phdr) (n : ℕ)
      → InRange p
      → AllInRange later
      → All (λ q. is_load q ≡ true → ApartBelowTop p q) later
      → first_no p ≤ n
      → n < limit_no p
      → Clear later n
  Clear-of_apart p [] n fits ranges apart lo hi = tt
  Clear-of_apart p (q ∷ later) n fits ranges apart lo hi =
      (λ load. clear load, Clear-of_apart p later n fits ranges.1 apart.1 lo hi)
    where
      clear : is_load q ≡ true → (n < first_no q) ⊎ (limit_no q ≤ n)
      clear load =
          let fits' = ranges.0 load in ground (arith, apart.0 load, fits.in_space, fits'.in_space)

  segment-kept :
      (p : Phdr) (later : List Phdr) {m m' : Mem} {role role' : ℕ → Role}
      → InRange p
      → AllInRange later
      → All (λ q. is_load q ≡ true → ApartBelowTop p q) later
      → role pgd ≡ table pgd 2 0
      → SegmentLoaded m role p
      → Grows m role m' role' pgd (Clear later)
      → SegmentLoaded m' role' p
  segment-kept p later fits ranges apart tab here g n lo hi =
      let no : page_no (n * page_size) ≡ n = omega (arith, hi, fits.in_space) in
      Loaded-Grows (n * page_size) tab (here n lo hi) g
        (rw no (Clear-of_apart p later n fits ranges apart lo hi))

  -- A loadable segment in front of others.
  segments_more :
      (p : Phdr) (later : List Phdr) (s : Kernel) (role : ℕ → Role) (xs : List ℕ)
      → is_load p ≡ true
      → (fits : InRange p) → AllInRange later
      → All (λ q. is_load q ≡ true → ApartBelowTop p q) later
      → role pgd ≡ table pgd 2 0
      → (first : PagesLoaded l app p fits pgd s role xs
          (first_no p * page_size)
          (page_count p)
          (load_segment app pgd p s))
      → let s₁ = record s { mem = first.builds.mem'; free_list = first.builds.head' } in
        SegmentsLoaded s₁ first.builds.role' first.builds.xs' later (load_segments app pgd later s₁)
        → SegmentsLoaded s role xs (p ∷ later) (load_segments app pgd (p ∷ later) s)
  unfolding load_segments needed
  segments_more p later s role xs load fits ranges apart tab first rest =
      let a = first.builds in
      let b = rest.builds in
      let own = pages-segment p fits a.mem' a.role' first.loaded in
      record {
        builds = record {
          mem' = b.mem';
          head' = b.head';
          role' = b.role';
          xs' = b.xs';
          returns = rw (load, a.returns) b.returns;
          spaces = b.spaces;
          few = rw load (omega (arith, a.few, b.few));
          grows =
              Grows-then (Clear (p ∷ later)) a.grows b.grows
                (λ k out. (ground (arith, out.0 load), out.1));
        };
        loaded = (
          λ _. segment-kept p later fits ranges apart (a.grows.roles pgd pgd 2 0 tab) own b.grows,
          rest.loaded,
        );
      }

  -- For loadable segments in range, whose pages are apart from one another, and with three free
  -- pages for each page of a segment, the loader of the segments returns. Every page of every
  -- segment is then translated, by an entry with the segment's permissions, to a page of its own
  -- that holds the bytes of the file and zeros behind them; pages that no segment covers, the
  -- spaces of other root tables and all pages of data that were there before are as they were, and
  -- the tables are trees.
  pub load_segments-SegmentsLoaded :
      (ps : List Phdr) (s : Kernel) (role : ℕ → Role) (xs : List ℕ)
      → Spaces l s.mem s.free_list role xs
      → role pgd ≡ table pgd 2 0
      → AllInRange ps
      → AllApart ps
      → 3 * needed ps ≤ length xs
      → SegmentsLoaded s role xs ps (load_segments app pgd ps s)
  unfolding load_segments needed
  load_segments-SegmentsLoaded [] s role xs sp tab ranges apart many = record {
    builds = record {
      mem' = s.mem;
      head' = s.free_list;
      role' = role;
      xs' = xs;
      returns = refl;
      spaces = sp;
      few = omega arith;
      grows = Grows-self s.mem role pgd (Clear []);
    };
    loaded = tt;
  }
  load_segments-SegmentsLoaded (p ∷ later) s role xs sp tab ranges apart many =
      elim (Bool-cases (is_load p)) [
        | inl load ↦
            let fits = ranges.0 load in
            let many' : 3 * (page_count p + needed later) ≤ length xs = rw load at many in
            let first = load_segment-loaded p fits s role xs sp tab (omega (arith, many')) in
            let a = first.builds in
            segments_more p later s role xs load fits ranges.1 (apart.0 load) tab first (
              load_segments-SegmentsLoaded later (record s { mem = a.mem'; free_list = a.head' })
                a.role' a.xs' a.spaces (a.grows.roles pgd pgd 2 0 tab) ranges.1 apart.1
                (omega (arith, a.few, many')))
        | inr skip ↦
            let rest =
              load_segments-SegmentsLoaded later s role xs sp tab ranges.1 apart.1
                (rw skip at many) in
            let b = rest.builds in
            record {
              builds = record {
                mem' = b.mem';
                head' = b.head';
                role' = b.role';
                xs' = b.xs';
                returns = rw skip b.returns;
                spaces = b.spaces;
                few = rw skip b.few;
                grows =
                    Grows-then (Clear (p ∷ later)) (Grows-self s.mem role pgd (Clear later)) b.grows
                      (λ k out. (out.1, out.1));
              };
              loaded = (λ load. absurd (ground (arith, load, skip)), rest.loaded);
            }
      ]
