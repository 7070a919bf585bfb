-- ===== src/VirtualMemory/Space/Ready.antt =====
-- What the constructor of `KernelAddressSpace` sets up is what the heap's functions need.
use nite_os_project.Common.{
  ℕ, ◌+◌, ◌-◌, ◌*◌, ◌%◌, ◌^◌, ◌<◌, ◌≤◌, ◌≡◌, ◌⊎◌, inl, inr, refl, sym, ap, ◌∙◌, subst, arith, ◌==◌,
  ltb, Bool-cases, some, update, update-hit, update-miss,
}
use nite_os_project.VirtualMemory.{
  Tables, kernel_virtual_base, is_present, set_page_frame, pdpt_index, pdir_index, kernel_map,
  convert_virt_to_phys,
}
use nite_os_project.VirtualMemory.Convert.{IsInjective, pdpt_index_lem, pdir_index_lem}
use nite_os_project.VirtualMemory.Mapped.{HasTable, kernel_map-convert}
use nite_os_project.VirtualMemory.Heap.{is_huge}
use nite_os_project.VirtualMemory.Heap.Runs.{HasTables}
use nite_os_project.VirtualMemory.Space.{
  Places, fill, map_io, map_kernel, new_kernel_space, physical,
}
use nite_os_project.VirtualMemory.Space.Entries.{
  fill_lem, fill-beyond, fresh_frame, is_present_flags, is_huge_flags,
}

-- The tables of the heap are whole pages in the GiB of the kernel's image.
abbrev pub IsHeapPlace : ℕ → Type 0
IsHeapPlace p =
    (p % 4096 ≡ 0) × (kernel_virtual_base ≤ p) × (p + 4096 * 512 ≤ kernel_virtual_base + 2 ^ 30)

-- The heap's tables are in memory that holds 0.
abbrev pub IsFresh : Tables → Type 0
IsFresh s = ((i : ℕ) → s.heap_dirs i ≡ 0) × ((i j : ℕ) → s.pointers i j ≡ 0)

module _ (at : Places) (s : Tables) (place : IsHeapPlace at.heap_at) (fresh : IsFresh s) where
  -- The directories of the heap exist and have tables.
  pub new_kernel_space-HasTables : HasTables (new_kernel_space at s)
  unfolding new_kernel_space map_io map_kernel
  new_kernel_space-HasTables i h =
      let base = physical at (at.heap_at + 4096 * i) in
      let aligned : base % 4096 ≡ 0 = omega (arith, place) in
      let e : (new_kernel_space at s).heap_dirs i ≡ base + 3 =
        fill_lem 512 _ s.heap_dirs i (omega arith) (omega arith) h
        ∙ ap (λ (w : ℕ). set_page_frame w base 3) (fresh.0 i)
        ∙ fresh_frame base 3 aligned (omega (arith, place)) (omega arith) in
      (
        ap is_present e ∙ is_present_flags base aligned 3 refl,
        ap is_huge e ∙ is_huge_flags base 3 aligned (omega arith),
      )

  -- Only the heap has page tables.
  pointers_lem :
      (p q : ℕ)
      → ((p ≡ 511) × (q < 512) × ((new_kernel_space at s).pointers p q ≡ at.heap_at + 4096 * q))
        ⊎ ((new_kernel_space at s).pointers p q ≡ 0)
  unfolding new_kernel_space map_io map_kernel
  pointers_lem p q =
      let heap = fill 512 (λ i old. at.heap_at + 4096 * i) (s.pointers 511) in
      elim (Bool-cases (p == 511)) [
        | inr other ↦ inr (
            ap (λ (f : ℕ → ℕ). f q) (update-miss s.pointers 511 heap p (ground arith))
            ∙ fresh.1 p q)
        | inl last ↦
            let e : 511 ≡ p = ground arith in
            let row : (new_kernel_space at s).pointers p q ≡ heap q =
              subst (λ (r : ℕ). update s.pointers 511 heap r q ≡ heap q) e
                (ap (λ (f : ℕ → ℕ). f q) (update-hit s.pointers 511 heap)) in
            elim (Bool-cases (ltb q 512)) [
              | inl inside ↦ inl (
                sym e,
                ground arith,
                row ∙ fill_lem 512 _ (s.pointers 511) q (omega arith) (omega arith) (ground arith),
              )
              | inr beyond ↦
                  inr (row ∙ fill-beyond 512 _ (s.pointers 511) q (ground arith) ∙ fresh.1 511 q)
            ]
      ]

  new_kernel_space-IsInjective : IsInjective (new_kernel_space at s)
  new_kernel_space-IsInjective p q i j same exists = elim (pointers_lem p q) [
    | inr z ↦ absurd (exists z)
    | inl (e, h, here) ↦ elim (pointers_lem i j) [
      | inr z ↦ absurd (exists (same ∙ z))
      | inl (f, k, there) ↦ (e ∙ sym f, omega (arith, here, there, same))
    ]
  ]

  new_kernel_space-HasTable : (v : ℕ) → pdpt_index v ≡ 511 → HasTable (new_kernel_space at s) v
  unfolding new_kernel_space map_io map_kernel
  new_kernel_space-HasTable v e z =
      let j = pdir_index v in
      let row : (new_kernel_space at s).pointers (pdpt_index v) j ≡ at.heap_at + 4096 * j =
        ap (λ (r : ℕ). (new_kernel_space at s).pointers r j) e
        ∙ fill_lem 512 _ (s.pointers 511) j (omega arith) (omega arith)
            (omega (arith, pdir_index_lem v)) in
      absurd (omega (arith, place, row, z))

  -- After the constructor, `KernelMapVirtualMemory4K` maps any whole pages of the heap but its last
  -- one, and each is then converted to the page of the physical range that is as far from its start.
  -- The flags have 12 bits and the one for present.
  pub kernel_map-new_kernel_space :
      (amount phys virt flags : ℕ)
      → 2 ^ 64 - 2 ^ 30 ≤ virt
      → virt + 4096 * amount < 2 ^ 64
      → virt % 4096 ≡ 0
      → phys % 4096 ≡ 0
      → phys + 4096 * amount ≤ 2 ^ 48
      → flags < 4096
      → flags % 2 ≡ 1
      → (t : Tables) × (kernel_map amount (new_kernel_space at s) phys virt flags ≡ some t)
        × ((i : ℕ) → i < amount → convert_virt_to_phys t (virt + 4096 * i) ≡ phys + 4096 * i)
  kernel_map-new_kernel_space amount phys virt flags low high aligned whole room small odd =
      kernel_map-convert amount (new_kernel_space at s) phys virt flags new_kernel_space-IsInjective
        low high aligned whole room small odd
        (λ i h.
          new_kernel_space-HasTable (virt + 4096 * i)
            (omega (arith, pdpt_index_lem (virt + 4096 * i))))
