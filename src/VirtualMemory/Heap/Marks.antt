-- ===== src/VirtualMemory/Heap/Marks.antt =====
-- The pages that `KernelAllocate4KPages` marks.
use nite_os_project.Common.{
  ℕ, zero, suc, ◌+◌, ◌*◌, ◌/◌, ◌%◌, ◌<◌, ◌≤◌, ◌≡◌, ◌≢◌, ◌⊎◌, inl, inr, refl, ap, ◌∙◌, subst, arith,
  true, ltb, leb, ◌==◌, Bool-cases, some, update-same, update-others,
}
use nite_os_project.VirtualMemory.{Tables, set_page_flags, set_entry}
use nite_os_project.VirtualMemory.Heap.{heap_entry, mark_pages}

module _ (heap_at : ℕ) where
  -- The entry of the page with a number.
  abbrev pub numbered : Tables → ℕ → ℕ
  numbered s p = heap_entry heap_at s (p / 512) (p % 512)

  numbered-other :
      (s : Tables) (p q entry : ℕ)
      → p ≢ q
      → numbered (set_entry s (heap_at + 4096 * (p / 512)) (p % 512) entry) q ≡ numbered s q
  numbered-other s p q entry ne =
      update-others s.entries (heap_at + 4096 * (p / 512)) (p % 512) entry
        (heap_at + 4096 * (q / 512)) (q % 512)
        (elim (Bool-cases (q % 512 == p % 512)) [
          | inr apart ↦ inr (ground arith)
          | inl same ↦
              let e : q % 512 ≡ p % 512 = ground arith in inl (λ t. ne (omega (arith, e, t)))
        ])

  -- So many pages from `p` on are marked, and the others are as before.
  abbrev pub IsMarked : Tables → ℕ → ℕ → Tables → Type 0
  IsMarked s p n t =
      ((q : ℕ) → p ≤ q → q < p + n → numbered t q ≡ set_page_flags (numbered s q) 0x3)
      × ((q : ℕ) → (q < p) ⊎ (p + n ≤ q) → numbered t q ≡ numbered s q)

  mark_page :
      (n : ℕ) (s : Tables) (dir offset : ℕ)
      → offset ≤ 512
      → 512 * dir + offset < 512 * 512
      → (let p = 512 * dir + offset in
          mark_pages heap_at (suc n) s dir offset
          ≡ mark_pages heap_at n
              (set_entry s
                (heap_at + 4096 * (p / 512))
                (p % 512)
                (set_page_flags (numbered s p) 0x3))
              (p / 512)
              (p % 512 + 1))
  unfolding mark_pages
  mark_page n s dir offset h b = elim (Bool-cases (leb 512 offset)) [
    | inl end ↦
        let last : offset ≡ 512 = ground arith in
        let place : (512 * dir + offset) / 512 ≡ dir + 1 = omega arith in
        let page : (512 * dir + offset) % 512 ≡ 0 = omega arith in
        let room : ltb (dir + 1) 512 ≡ true = ground arith in rw (end, place, page, room) refl
    | inr inside ↦
        let less : offset < 512 = ground arith in
        let place : (512 * dir + offset) / 512 ≡ dir = omega arith in
        let page : (512 * dir + offset) % 512 ≡ offset = omega arith in
        let room : ltb dir 512 ≡ true = ground arith in rw (inside, place, page, room) refl
  ]

  -- From the page that is marked on, and the pages behind it.
  IsMarked-cons :
      (s t : Tables) (p n : ℕ)
      → IsMarked
          (set_entry s (heap_at + 4096 * (p / 512)) (p % 512) (set_page_flags (numbered s p) 0x3))
          (p + 1)
          n
          t
      → IsMarked s p (suc n) t
  IsMarked-cons s t p n (marked, others) =
      let entry = set_page_flags (numbered s p) 0x3 in
      let here = update-same s.entries (heap_at + 4096 * (p / 512)) (p % 512) entry in
      (
        (λ q le lt. elim (Bool-cases (q == p)) [
          | inl first ↦
              let e : p ≡ q = ground arith in
              subst (λ (r : ℕ). numbered t r ≡ set_page_flags (numbered s r) 0x3) e
                (others p (inl (omega arith)) ∙ here)
          | inr later ↦
              marked q (ground arith) (omega arith)
              ∙ ap (λ (w : ℕ). set_page_flags w 0x3) (numbered-other s p q entry (ground arith))
        ]),
        (λ q o. others q (ground (arith, o)) ∙ numbered-other s p q entry (ground (arith, o))),
      )

  pub mark_pages-IsMarked :
      (n : ℕ) (s : Tables) (dir offset : ℕ)
      → offset ≤ 512
      → 512 * dir + offset + n ≤ 512 * 512
      → (t : Tables) × (mark_pages heap_at n s dir offset ≡ some t)
        × IsMarked s (512 * dir + offset) n t
  unfolding mark_pages
  mark_pages-IsMarked zero s dir offset h b =
      (s, refl, ((λ q le lt. absurd (omega arith)), (λ q o. refl)))
  mark_pages-IsMarked (suc n) s dir offset h b =
      let p = 512 * dir + offset in
      let entry = set_page_flags (numbered s p) 0x3 in
      let next = set_entry s (heap_at + 4096 * (p / 512)) (p % 512) entry in
      let place : 512 * (p / 512) + (p % 512 + 1) ≡ p + 1 = omega arith in
      let (t, e, h2) =
        mark_pages-IsMarked n next (p / 512) (p % 512 + 1) (omega arith) (omega arith) in
      (
        t,
        mark_page n s dir offset h (omega arith) ∙ e,
        IsMarked-cons s t p n (subst (λ (q : ℕ). IsMarked next q n t) place h2),
      )
