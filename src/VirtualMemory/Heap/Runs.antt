-- ===== src/VirtualMemory/Heap/Runs.antt =====
-- The first loop of `KernelAllocate4KPages` finds the first run of pages that are not present.
use nite_os_project.Common.{
  ℕ, zero, suc, ◌+◌, ◌-◌, ◌*◌, ◌/◌, ◌%◌, ◌<◌, ◌≤◌, ◌≡◌, ◌⊎◌, inl, inr, refl, sym, subst, arith,
  true, false, ltb, leb, ◌==◌, Bool-cases,
}
use nite_os_project.VirtualMemory.{Tables, is_present}
use nite_os_project.VirtualMemory.Heap.{
  Run, Search, going, found, is_huge, heap_entry, search_page, search_table, search_dirs, no_run,
}

-- The directories all exist and have tables.
abbrev pub HasTables : Tables → Type 0
HasTables s =
    (i : ℕ) → i < 512 → (is_present (s.heap_dirs i) ≡ true) × (is_huge (s.heap_dirs i) ≡ false)

-- The number of the page with which a run starts.
abbrev pub first : Run → ℕ
first run = 512 * run.dir + run.offset

module _ (heap_at : ℕ) (s : Tables) (amount : ℕ) where
  -- The page with a number is not present.
  abbrev pub IsFree : ℕ → Type 0
  IsFree p = is_present (heap_entry heap_at s (p / 512) (p % 512)) ≡ false

  abbrev pub FreeRun : ℕ → ℕ → Type 0
  FreeRun p n = (j : ℕ) → j < n → IsFree (p + j)

  -- No run of so many pages starts before `p`.
  abbrev pub NoneBefore : ℕ → Type 0
  NoneBefore p = (m : ℕ) → m < p → ¬ FreeRun m amount

  -- The variables in front of the page `p`.
  abbrev pub IsCounting : ℕ → Run → Type 0
  IsCounting p run =
      (first run + run.counter ≡ p)
      × (run.counter < amount)
      × (run.offset ≤ 512)
      × FreeRun (first run) run.counter
      × NoneBefore (first run)

  -- The run that is found.
  abbrev pub IsFound : Run → Type 0
  IsFound run =
      (run.counter ≡ amount)
      × (run.offset ≤ 512)
      × (first run + amount ≤ 512 * 512)
      × FreeRun (first run) amount
      × NoneBefore (first run)

  abbrev Outcome : ℕ → Search → Type 0
  Outcome p (going run) = IsCounting p run
  Outcome p (found run) = IsFound run

  blocked :
      (m p : ℕ)
      → m ≤ p
      → p < m + amount
      → is_present (heap_entry heap_at s (p / 512) (p % 512)) ≡ true
      → ¬ FreeRun m amount
  blocked m p le lt used free =
      let place : m + (p - m) ≡ p = omega arith in
      let unused = subst IsFree place (free (p - m) (omega arith)) in
      absurd (ground (arith, used, unused))

  FreeRun-extended : (p n : ℕ) → FreeRun p n → IsFree (p + n) → FreeRun p (n + 1)
  FreeRun-extended p n free here j h = elim (Bool-cases (j == n)) [
    | inl last ↦ (let e : n ≡ j = ground arith in subst (λ (q : ℕ). IsFree (p + q)) e here)
    | inr before ↦ free j (ground arith)
  ]

  search_page-Outcome :
      (i j : ℕ) (run : Run)
      → 0 < amount
      → i < 512
      → j < 512
      → IsCounting (512 * i + j) run
      → Outcome (512 * i + j + 1) (search_page heap_at s amount i j run)
  unfolding search_page
  search_page-Outcome i j run pos hi hj (at, less, in_table, free, before) =
      let dir : (512 * i + j) / 512 ≡ i = omega arith in
      let page : (512 * i + j) % 512 ≡ j = omega arith in
      elim (Bool-cases (is_present (heap_entry heap_at s i j))) [
        | inl used ↦ rw used (
          omega arith,
          pos,
          omega arith,
          (λ k h. absurd (omega arith)),
          (λ m h. elim (Bool-cases (ltb m (first run))) [
            | inl early ↦ before m (ground arith)
            | inr late ↦ blocked m (512 * i + j) (omega arith) (ground arith) (rw (dir, page) used)
          ]),
        )
        | inr unused ↦
            let here : IsFree (first run + run.counter) =
              subst IsFree (sym at) (rw (dir, page) unused) in
            let longer = FreeRun-extended (first run) run.counter free here in
            elim (Bool-cases (leb amount (run.counter + 1))) [
              | inl long ↦
                  let all : run.counter + 1 ≡ amount = ground arith in
                  rw (unused, long)
                    (all, in_table, omega arith, subst (FreeRun (first run)) all longer, before)
              | inr short ↦ rw (unused, short) (omega arith, ground arith, in_table, longer, before)
            ]
      ]

  -- What follows a round, given its outcome.
  Outcome-next :
      (p q : ℕ) (r : Search) (next : Run → Search)
      → Outcome p r
      → ((run : Run) → IsCounting p run → Outcome q (next run))
      → Outcome q (elim r as (λ t. Search) [ found run ↦ found run | going run ↦ next run ])
  Outcome-next p q (found run) next h k = h
  Outcome-next p q (going run) next h k = k run h

  search_table-Outcome :
      (i left : ℕ) (run : Run)
      → 0 < amount
      → i < 512
      → left ≤ 512
      → IsCounting (512 * i + (512 - left)) run
      → Outcome (512 * i + 512) (search_table heap_at s amount i left run)
  unfolding search_table
  search_table-Outcome i zero run pos hi hl h = subst (λ (p : ℕ). IsCounting p run) (omega arith) h
  search_table-Outcome i (suc left) run pos hi hl h =
      let place : 512 * i + (512 - suc left) ≡ 512 * i + (511 - left) = omega arith in
      let next : 512 * i + (511 - left) + 1 ≡ 512 * i + (512 - left) = omega arith in
      let round =
        search_page-Outcome i (511 - left) run pos hi (omega arith)
          (subst (λ (p : ℕ). IsCounting p run) place h) in
      Outcome-next _ _ (search_page heap_at s amount i (511 - left) run) _
        (subst (λ (p : ℕ). Outcome p (search_page heap_at s amount i (511 - left) run)) next round)
        (λ r k. search_table-Outcome i left r pos hi (omega arith) k)

  search_dirs-Outcome :
      (left : ℕ) (run : Run)
      → HasTables s
      → 0 < amount
      → left ≤ 512
      → IsCounting (512 * (512 - left)) run
      → Outcome (512 * 512) (search_dirs heap_at s amount left run)
  unfolding search_dirs
  search_dirs-Outcome zero run has pos hl h = h
  search_dirs-Outcome (suc left) run has pos hl h =
      let i = 511 - left in
      let (there, small) = has i (omega arith) in
      let place : 512 * (512 - suc left) ≡ 512 * i + (512 - 512) = omega arith in
      let next : 512 * i + 512 ≡ 512 * (512 - left) = omega arith in
      let table =
        search_table-Outcome i 512 run pos (omega arith) (omega arith)
          (subst (λ (p : ℕ). IsCounting p run) place h) in
      rw (there, small)
        (Outcome-next _ _ (search_table heap_at s amount i 512 run) _
          (subst (λ (p : ℕ). Outcome p (search_table heap_at s amount i 512 run)) next table)
          (λ r k. search_dirs-Outcome left r has pos (omega arith) k))

  -- The loop as a whole, for at least one page.
  pub search_dirs-first :
      HasTables s
      → 0 < amount
      → ((run : Run) × (search_dirs heap_at s amount 512 no_run ≡ found run) × IsFound run)
        ⊎ ((run : Run) × (search_dirs heap_at s amount 512 no_run ≡ going run)
            × ((m : ℕ) → m + amount ≤ 512 * 512 → ¬ FreeRun m amount))
  search_dirs-first has pos = answer (search_dirs heap_at s amount 512 no_run) refl (
      search_dirs-Outcome 512 no_run has pos (omega arith)
        (refl, pos, omega arith, (λ j h. absurd (omega arith)), (λ m h. absurd (omega arith))))
    where
      answer :
          (r : Search)
          → search_dirs heap_at s amount 512 no_run ≡ r
          → Outcome (512 * 512) r
          → ((run : Run) × (search_dirs heap_at s amount 512 no_run ≡ found run) × IsFound run)
            ⊎ ((run : Run) × (search_dirs heap_at s amount 512 no_run ≡ going run)
                × ((m : ℕ) → m + amount ≤ 512 * 512 → ¬ FreeRun m amount))
      answer (found run) e h = inl (run, e, h)
      answer (going run) e (at, less, in_table, free, before) =
          inr (run, e, (λ m fits. before m (omega arith)))
