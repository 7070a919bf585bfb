-- ===== src/Apic/Walk.antt =====
-- The walk over the MADT gathers what the entries say, and ends where they have a length.
use nite_os_project.Common.{
  ℕ, zero, suc, ◌+◌, ◌^◌, ◌<◌, ◌≤◌, ◌≡◌, refl, sym, ◌∙◌, arith, bit_and, not, ◌==◌, ◌&&◌,
  if◌then◌else◌, none, some, List, [], ◌∷◌, ◌++◌, length, snoc_append,
}
use nite_os_project.Apic.{
  ApicLocal, ApicDevice, read32, entry_type, entry_length, local_apic, io_apic, source_override,
  read_entry, walk,
}
use mathlib.Core.List.{append-nil}
use native.Mathlib.Nat.{mod-eq_of_lt}

module _ (memory : ℕ → ℕ) where
  -- The entries at the offsets of the list fill the memory up to `end`, each with a length.
  pub data Entries (end : ℕ) : ℕ → List ℕ → Type 0 where
    finished : {offset : ℕ} → end ≤ offset → Entries end offset []
    entry :
        {offset : ℕ} {offsets : List ℕ}
        → offset < end
        → offset + entry_length memory offset < 2 ^ 64
        → Entries end (offset + entry_length memory offset) offsets
        → Entries end offset (offset ∷ offsets)

  -- What the entries say: the local APICs that are enabled or can be, the overrides, and the base of
  -- the last I/O APIC whose interrupts start at 0.
  abbrev pub enabled : List ℕ → List ApicLocal
  enabled [] = []
  enabled (o ∷ os) =
      if (entry_type memory o == 0) && not (bit_and (read32 memory (o + 4)) 0x3 == 0)
      then record { apic_id = memory (o + 3); processor_id = memory (o + 2) } ∷ enabled os
      else enabled os

  abbrev pub overriding : List ℕ → List ℕ
  overriding [] = []
  overriding (o ∷ os) = if entry_type memory o == 2 then o ∷ overriding os else overriding os

  abbrev pub last_base : ℕ → List ℕ → ℕ
  last_base base [] = base
  last_base base (o ∷ os) =
      if (entry_type memory o == 1) && (read32 memory (o + 8) == 0)
      then last_base (read32 memory (o + 4)) os
      else last_base base os

  abbrev pub Gathers : ApicDevice → List ℕ → ApicDevice → Type 0
  Gathers s os r =
      (r.interfaces ≡ s.interfaces ++ enabled os)
      × (r.overrides ≡ s.overrides ++ overriding os)
      × (r.io_base_phys ≡ last_base s.io_base_phys os)

  read_entry-enabled :
      (s : ApicDevice) (o : ℕ) (os : List ℕ)
      → (read_entry memory s o).interfaces ++ enabled os ≡ s.interfaces ++ enabled (o ∷ os)
  unfolding read_entry local_apic io_apic source_override
  read_entry-enabled s o os =
      let local : ApicLocal = record { apic_id = memory (o + 3); processor_id = memory (o + 2) } in
      ground (arith, snoc_append s.interfaces local (enabled os))

  read_entry-overriding :
      (s : ApicDevice) (o : ℕ) (os : List ℕ)
      → (read_entry memory s o).overrides ++ overriding os ≡ s.overrides ++ overriding (o ∷ os)
  unfolding read_entry local_apic io_apic source_override
  read_entry-overriding s o os = ground (arith, snoc_append s.overrides o (overriding os))

  read_entry-base :
      (s : ApicDevice) (o : ℕ) (os : List ℕ)
      → last_base (read_entry memory s o).io_base_phys os ≡ last_base s.io_base_phys (o ∷ os)
  unfolding read_entry local_apic io_apic source_override
  read_entry-base s o os = ground arith

  read_entry-Gathers :
      (s r : ApicDevice) (o : ℕ) (os : List ℕ)
      → Gathers (read_entry memory s o) os r
      → Gathers s (o ∷ os) r
  read_entry-Gathers s r o os (i, v, b) =
      (i ∙ read_entry-enabled s o os, v ∙ read_entry-overriding s o os, b ∙ read_entry-base s o os)

  walk-done :
      (fuel offset end : ℕ) (s : ApicDevice)
      → end ≤ offset
      → walk memory (suc fuel) offset end s ≡ some s
  unfolding walk
  walk-done fuel offset end s h = ground arith

  walk-more :
      (fuel offset end : ℕ) (s : ApicDevice)
      → offset < end
      → offset + entry_length memory offset < 2 ^ 64
      → walk memory (suc fuel) offset end s
        ≡ walk memory fuel (offset + entry_length memory offset) end (read_entry memory s offset)
  unfolding walk
  walk-more fuel offset end s h b = ground (arith, mod-eq_of_lt b)

  -- Where entries fill the table up to `end`, the loop ends, given fuel for one round more than there
  -- are entries. Its result has added a local APIC for each entry that is enabled or can be, each
  -- interrupt override, and the base of the last I/O APIC whose interrupts start at 0.
  pub walk-Gathers :
      (fuel offset end : ℕ) (offsets : List ℕ) (s : ApicDevice)
      → Entries end offset offsets
      → length offsets < fuel
      → (r : ApicDevice) × (walk memory fuel offset end s ≡ some r) × Gathers s offsets r
  walk-Gathers zero offset end offsets s es h = absurd (omega (arith, h))
  walk-Gathers (suc fuel) offset end [] s (finished le) h =
      (s, walk-done fuel offset end s le, (sym (append-nil _), sym (append-nil _), refl))
  walk-Gathers (suc fuel) offset end (o ∷ offsets) s (entry lt b es) h =
      let (r, e, g) =
        walk-Gathers fuel (o + entry_length memory o) end offsets (read_entry memory s o) es
          (omega arith) in
      (r, walk-more fuel o end s lt b ∙ e, read_entry-Gathers s r o offsets g)

  -- The loop never ends at an entry in front of `end` with the length 0.
  pub walk-stuck :
      (fuel offset end : ℕ) (s : ApicDevice)
      → offset < end
      → end < 2 ^ 64
      → entry_length memory offset ≡ 0
      → walk memory fuel offset end s ≡ none
  unfolding walk
  walk-stuck zero offset end s h b z = refl
  walk-stuck (suc fuel) offset end s h b z =
      let same : offset + entry_length memory offset ≡ offset = omega (arith, z) in
      walk-more fuel offset end s h (omega (arith, z))
      ∙ rw same (walk-stuck fuel offset end (read_entry memory s offset) h b z)
