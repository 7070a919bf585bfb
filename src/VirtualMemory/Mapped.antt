-- ===== src/VirtualMemory/Mapped.antt =====
-- Pages that `KernelMapVirtualMemory4K` has mapped are converted to the frames that they were given.
use nite_os_project.Common.{
  subst₂, ℕ, zero, suc, ◌+◌, ◌-◌, ◌*◌, ◌/◌, ◌%◌, ◌^◌, ◌<◌, ◌≤◌, ◌≡◌, ◌≢◌, ◌⊎◌, inl, refl, sym, ap,
  ◌∙◌, subst, arith, true, false, ◌==◌, some, update-same,
}
use nite_os_project.Common.Words.{add64}
use nite_os_project.VirtualMemory.{
  Tables, kernel_virtual_base, pdpt_index, pdir_index, page_index, is_present, set_page_frame,
  convert_kernel, convert_virt_to_phys, set_entry, kernel_map,
}
use nite_os_project.VirtualMemory.Frames.{
  page_frame_lem, frame_of, frame_of-set_page_frame, is_present-set_page_frame,
}
use nite_os_project.VirtualMemory.Convert.{
  pdpt_index_lem, IsKernel, IsInjective, entry_at, set_entry-other, pml4_index_lem,
}

-- The page of the address has a table.
abbrev pub HasTable : Tables → ℕ → Type 0
HasTable s v = s.pointers (pdpt_index v) (pdir_index v) ≢ 0

-- The page of the address has the frame.
abbrev pub MapsTo : Tables → ℕ → ℕ → ℕ → Type 0
MapsTo t flags virt phys = (old : ℕ) × (entry_at t virt ≡ set_page_frame old phys flags)

MapsTo-cons :
    (t : Tables) (amount flags virt phys : ℕ)
    → MapsTo t flags virt phys
    → ((i : ℕ) → i < amount → MapsTo t flags (virt + 4096 + 4096 * i) (phys + 4096 + 4096 * i))
    → (i : ℕ) → i < suc amount
    → MapsTo t flags (virt + 4096 * i) (phys + 4096 * i)
MapsTo-cons t amount flags virt phys first later zero h =
    subst₂ (MapsTo t flags) (omega arith) (omega arith) first
MapsTo-cons t amount flags virt phys first later (suc i) h =
    subst₂ (MapsTo t flags) (omega arith) (omega arith) (later i (omega arith))

-- What the loop leaves: the pages with the frames, the other entries as before.
abbrev pub Mapped : Tables → ℕ → ℕ → ℕ → ℕ → Tables → Type 0
Mapped s amount phys virt flags t =
    (t.pointers ≡ s.pointers)
    × ((i : ℕ) → i < amount → MapsTo t flags (virt + 4096 * i) (phys + 4096 * i))
    × ((w : ℕ)
        → IsKernel w
        → (w / 4096 < virt / 4096) ⊎ (virt / 4096 + amount ≤ w / 4096)
        → entry_at t w ≡ entry_at s w)

kernel_map_step :
    (amount : ℕ) (s : Tables) (phys virt flags : ℕ)
    → HasTable s virt
    → virt + 4096 < 2 ^ 64
    → phys + 4096 < 2 ^ 64
    → kernel_map (suc amount) s phys virt flags
      ≡ kernel_map amount
          (set_entry s
            (s.pointers (pdpt_index virt) (pdir_index virt))
            (page_index virt)
            (set_page_frame (entry_at s virt) phys flags))
          (phys + 4096)
          (virt + 4096)
          flags
unfolding kernel_map
kernel_map_step amount s phys virt flags has v p =
    let there : (s.pointers (pdpt_index virt) (pdir_index virt) == 0) ≡ false =
      ground (arith, has) in
    let a : add64 virt 4096 ≡ virt + 4096 = omega arith in
    let b : add64 phys 4096 ≡ phys + 4096 = omega arith in rw (there, a, b) refl

kernel_map-Mapped :
    (amount : ℕ) (s : Tables) (phys virt flags : ℕ)
    → IsInjective s
    → 2 ^ 64 - 2 ^ 39 ≤ virt
    → virt + 4096 * amount < 2 ^ 64
    → phys + 4096 * amount < 2 ^ 64
    → ((i : ℕ) → i < amount → HasTable s (virt + 4096 * i))
    → (t : Tables) × (kernel_map amount s phys virt flags ≡ some t)
      × Mapped s amount phys virt flags t
unfolding kernel_map
kernel_map-Mapped zero s phys virt flags inj low high room has =
    (s, refl, (refl, (λ i h. absurd (omega arith)), (λ w k o. refl)))
kernel_map-Mapped (suc amount) s phys virt flags inj low high room has =
    let zeroth : virt + 4096 * 0 ≡ virt = omega arith in
    let start : phys + 4096 * 0 ≡ phys = omega arith in
    let first = subst (HasTable s) zeroth (has 0 (omega arith)) in
    let new = set_page_frame (entry_at s virt) phys flags in
    let table = s.pointers (pdpt_index virt) (pdir_index virt) in
    let s1 = set_entry s table (page_index virt) new in
    let (t, e, (pointers, pages, others)) =
      kernel_map-Mapped amount s1 (phys + 4096) (virt + 4096) flags inj (omega arith) (omega arith)
        (omega arith)
        (λ i h.
          let next : virt + 4096 * suc i ≡ virt + 4096 + 4096 * i = omega arith in
          subst (HasTable s) next (has (suc i) (omega arith))) in
    let here : entry_at t virt ≡ new =
      others virt (omega arith, omega arith) (inl (omega arith))
      ∙ update-same s.entries table (page_index virt) new in
    (
      t,
      kernel_map_step amount s phys virt flags first (omega arith) (omega arith) ∙ e,
      (
        pointers,
        MapsTo-cons t amount flags virt phys (entry_at s virt, here) pages,
        (λ w k o.
            others w k (omega (arith, o))
            ∙ set_entry-other s virt w new inj (omega arith, omega arith) k (omega (arith, o))
                first),
      ),
    )

abbrev table_of : Tables → ℕ → ℕ
table_of t v = t.pointers (pdpt_index v) (pdir_index v)

convert-MapsTo :
    (t : Tables) (flags v phys : ℕ)
    → IsKernel v
    → v % 4096 ≡ 0
    → pdpt_index v ≢ 510
    → flags < 4096
    → flags % 2 ≡ 1
    → HasTable t v
    → MapsTo t flags v phys
    → convert_virt_to_phys t v ≡ frame_of phys
unfolding convert_virt_to_phys convert_kernel
convert-MapsTo t flags v phys k aligned outside small odd has (old, e) =
    let top = pml4_index_lem v k in
    let other : (pdpt_index v == pdpt_index kernel_virtual_base) ≡ false =
      ground (arith, outside) in
    let there : (table_of t v == 0) ≡ false = ground (arith, has) in
    let present : is_present (entry_at t v) ≡ true =
      ap is_present e ∙ is_present-set_page_frame old phys flags small odd in
    let (frame, low) = frame_of-set_page_frame old phys flags small in
    let none_low : v % 4096 ≡ 0 = aligned in
    rw (top, other, there, present, none_low)
      (page_frame_lem (entry_at t v) ∙ ap frame_of e ∙ frame)

-- `KernelMapVirtualMemory4K` of whole pages in the last GiB but its last page, where the page tables
-- exist and no two places share one, ends, and each of the pages is then converted to the page of the
-- physical range that is as far from its start. The flags have 12 bits and the one for present.
pub kernel_map-convert :
    (amount : ℕ) (s : Tables) (phys virt flags : ℕ)
    → IsInjective s
    → 2 ^ 64 - 2 ^ 30 ≤ virt
    → virt + 4096 * amount < 2 ^ 64
    → virt % 4096 ≡ 0
    → phys % 4096 ≡ 0
    → phys + 4096 * amount ≤ 2 ^ 48
    → flags < 4096
    → flags % 2 ≡ 1
    → ((i : ℕ) → i < amount → HasTable s (virt + 4096 * i))
    → (t : Tables) × (kernel_map amount s phys virt flags ≡ some t)
      × ((i : ℕ) → i < amount → convert_virt_to_phys t (virt + 4096 * i) ≡ phys + 4096 * i)
kernel_map-convert amount s phys virt flags inj low high aligned whole room small odd has =
    let (t, e, (pointers, pages, others)) =
      kernel_map-Mapped amount s phys virt flags inj (omega arith) high (omega arith) has in
    (
      t,
      e,
      (λ i h.
          let v = virt + 4096 * i in
          let last : pdpt_index v ≡ 511 = omega (arith, pdpt_index_lem v) in
          let table : HasTable t v =
            subst (λ f. f (pdpt_index v) (pdir_index v) ≢ 0) (sym pointers) (has i h) in
          convert-MapsTo t flags v (phys + 4096 * i) (omega arith, omega arith) (omega arith)
            (omega (arith, last)) small odd table (pages i h)
          ∙ omega arith),
    )
