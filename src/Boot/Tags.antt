-- ===== src/Boot/Tags.antt =====
-- The loops of the start that do not move on.
use nite_os_project.Common.{
  ℕ, zero, suc, ◌≡◌, ◌≢◌, refl, arith, Option, none, some, Option-cases, inl, inr,
}
use nite_os_project.Align.{align_up, align_down}
use nite_os_project.Boot.{Mem, Memmap, Tag, read_tag, tag_loop, block_loop}

-- With a tag to read, `kload_st2` does not get to `setupKernel`, however many rounds it runs.
pub tag_loop-none : (fuel : ℕ) (mem : Mem) (tag : Tag) → tag_loop fuel mem (some tag) ≡ none
unfolding tag_loop
tag_loop-none zero mem tag = refl
tag_loop-none (suc fuel) mem tag = elim (Option-cases (read_tag mem tag)) [
  | inl e ↦ rw e refl
  | inr (after, e) ↦ rw e (tag_loop-none fuel after tag)
]

block_loop-stuck :
    (fuel : ℕ) (range : Memmap) (found : Option Memmap)
    → range.max ≡ 0
    → block_loop fuel range found ≡ none
unfolding block_loop
block_loop-stuck zero range found z = refl
block_loop-stuck (suc fuel) range found z =
    let skipped = block_loop-stuck fuel range found z in
    let taken =
      block_loop-stuck fuel range
        (some (record range { min = align_up range.min 4096; max = align_down range.max 4096 }))
        z in
    ground (arith, skipped, taken)

-- `BlockAlloc` takes no range: it ends at once where the first range has an end other than 0, and never
-- where its end is 0.
pub block_loop-none :
    (fuel : ℕ) (range : Memmap)
    → (range.max ≢ 0 → block_loop (suc fuel) range none ≡ some none)
      × (range.max ≡ 0 → block_loop fuel range none ≡ none)
unfolding block_loop
block_loop-none fuel range = ((λ ends. ground arith), block_loop-stuck fuel range none)
