-- ===== src/VirtualMemory/Heap/Allocate.antt =====
-- `KernelAllocate4KPages` as a whole, where the directories of the heap exist, as the constructor of
-- `KernelAddressSpace` leaves them.
use nite_os_project.Common.{
  ℕ, zero, suc, ◌+◌, ◌-◌, ◌*◌, ◌^◌, ◌<◌, ◌≤◌, ◌≡◌, ◌⊎◌, inl, inr, refl, ap, ◌∙◌, subst, arith, none,
  some,
}
use nite_os_project.Common.Bits.{bit_or_disjoint, bit_or_comm}
use nite_os_project.VirtualMemory.{Tables}
use nite_os_project.VirtualMemory.Heap.{
  Run, going, no_run, heap_address, search_free, take_free, take_run, kernel_allocate,
}
use nite_os_project.VirtualMemory.Heap.Runs.{
  HasTables, first, FreeRun, NoneBefore, search_dirs-first,
}
use nite_os_project.VirtualMemory.Heap.Marks.{IsMarked, mark_pages-IsMarked}

heap_address_lem :
    (run : Run) → first run < 512 * 512 → heap_address run ≡ 2 ^ 64 - 2 ^ 30 + 4096 * first run
heap_address_lem run h =
    let offset = run.dir * 0x200000 + run.offset * 0x1000 in
    bit_or_comm offset 0xFFFFFFFFC0000000
    ∙ bit_or_disjoint 30 (2 ^ 34 - 1) offset (omega arith)
    ∙ omega arith

module _ (heap_at : ℕ) (s : Tables) (amount : ℕ) (has : HasTables s) where
  search_free-going :
      (left : ℕ) (run : Run)
      → left ≤ 512
      → (r : Run) × (search_free heap_at s amount left run ≡ going r)
  unfolding search_free
  search_free-going zero run h = (run, refl)
  search_free-going (suc left) run h =
      let (there, small) = has (511 - left) (omega arith) in
      rw there (search_free-going left _ (omega arith))

  -- `KernelAllocate4KPages` of at least one page, where the directories of the heap exist and have
  -- tables, takes the first run of as many pages that are not present: it gives the address of its
  -- first page, has marked these pages and no others. Where there is no such run, it panics.
  pub kernel_allocate_lem :
      0 < amount
      → ((p : ℕ) × (t : Tables) × (kernel_allocate heap_at s amount
            ≡ some (t, 2 ^ 64 - 2 ^ 30 + 4096 * p))
          × (p + amount ≤ 512 * 512)
          × FreeRun heap_at s amount p amount
          × NoneBefore heap_at s amount p
          × IsMarked heap_at s p amount t)
        ⊎ (((m : ℕ) → m + amount ≤ 512 * 512 → ¬ FreeRun heap_at s amount m amount)
            × (kernel_allocate heap_at s amount ≡ none))
  unfolding kernel_allocate take_run take_free
  kernel_allocate_lem pos = elim (search_dirs-first heap_at s amount has pos) [
    | inl (run, e, (all, in_table, room, free, before)) ↦
        let (t, marked, changed) =
          mark_pages-IsMarked heap_at run.counter s run.dir run.offset in_table (omega arith) in
        inl (
          first run,
          t,
          rw (e, marked) (ap (λ (a : ℕ). some (t, a)) (heap_address_lem run (omega arith))),
          room,
          free,
          before,
          subst (λ (n : ℕ). IsMarked heap_at s (first run) n t) all changed,
        )
    | inr (run, e, never) ↦
        let (r, f) = search_free-going 512 no_run (omega arith) in inr (never, rw (e, f) refl)
  ]
