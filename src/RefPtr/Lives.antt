-- ===== src/RefPtr/Lives.antt =====
-- Over the life of references that are made from pointers, each counter is the number of references
-- to it.
use nite_os_project.Common.{
  ℕ, zero, suc, ◌+◌, ◌^◌, ◌<◌, ◌≡◌, ◌≢◌, refl, sym, ap, ◌∙◌, subst, arith, false, ◌==◌, Bool-cases,
  List, [], ◌∷◌, ◌++◌, length, length-append, inl, inr,
}
use nite_os_project.RefPtr.{RefPtr, Heap, write, new_ref, copy_ref, release, assign}
use nite_os_project.RefPtr.Uses.{
  uses, elem, State, Step, made, copied, destroyed, assigned, self_assigned, Steps, start, next,
  IsCounted, uses-le, release-last, release-kept, uses-same,
}
use nite_os_project.RefPtr.Counted.{write-uses, release-IsCounted, retain-IsCounted}

new_ref-null : (h : Heap) (c : ℕ) → new_ref h c 0 ≡ (h, record { ptr = 0; ref_count = 0 })
unfolding new_ref
new_ref-null h c = refl

new_ref-counted :
    (h : Heap) (c ptr : ℕ)
    → ptr ≢ 0
    → new_ref h c ptr
      ≡ (record h { count = write h.count c 1 }, record { ptr = ptr; ref_count = c })
unfolding new_ref
new_ref-counted h c ptr nz = ground arith

new_ref-IsCounted :
    (h : Heap) (refs : List RefPtr) (c ptr : ℕ)
    → IsCounted h refs
    → c ≢ 0
    → uses c refs ≡ 0
    → elem c h.counters ≡ false
    → IsCounted (new_ref h c ptr).0 ((new_ref h c ptr).1 ∷ refs)
new_ref-IsCounted h refs c zero i nz unused fresh = rw (new_ref-null h c) (record {
  counts = λ d dz. i.counts d dz ∙ ground arith;
  gone = λ d dz deleted. (let old = i.gone d dz deleted in ground arith);
  once = i.once;
})
new_ref-IsCounted h refs c (suc p) i nz unused fresh =
    let made : RefPtr = record { ptr = suc p; ref_count = c } in
    rw (new_ref-counted h c (suc p) (omega arith)) (record {
      counts = λ d dz.
          write-uses h.count (made ∷ refs) c 1 d (ground arith)
            (λ ne. i.counts d dz ∙ ground arith);
      gone = λ d dz deleted.
          (let old = i.gone d dz deleted in
            elim (Bool-cases (c == d)) [
              | inl hit ↦
                  let here : c ≡ d = ground arith in
                  let known = ap (λ k. elem k h.counters) here in absurd (ground arith)
              | inr miss ↦ ground arith
            ]);
      once = i.once;
    })

-- What a step does to the heap, one case for each.
Step-IsCounted :
    (s t : State)
    → IsCounted s.heap s.refs
    → length s.refs < 2 ^ 32
    → length t.refs < 2 ^ 32
    → Step s t
    → IsCounted t.heap t.refs
unfolding copy_ref assign
Step-IsCounted s t i b b' (made {h} {refs} c ptr nz unused fresh) =
    new_ref-IsCounted h refs c ptr i nz unused fresh
Step-IsCounted s t i b b' (copied {h} xs ys r) =
    retain-IsCounted h xs ys [] (xs ++ r ∷ ys) r r (omega arith) i refl refl
Step-IsCounted s t i b b' (destroyed {h} xs ys r) = release-IsCounted h xs ys r i b
Step-IsCounted s t i b b' (assigned {h} xs ys us vs r o e) =
    let left : length (us ++ o ∷ vs) ≡ length (xs ++ ys) = ap length (sym e) in
    let few : length (us ++ o ∷ vs) + 1 < 2 ^ 32 =
      omega (arith, left, length-append xs ys, length-append xs (r ∷ ys)) in
    retain-IsCounted (release h r) us vs xs ys o (assign h false r o).1 few
      (subst (IsCounted (release h r)) e (release-IsCounted h xs ys r i b)) e refl
Step-IsCounted s t i b b' (self_assigned {h} xs ys r) = i

-- While there are fewer than `2 ^ 32` references, and none is made by `RefPtr()`, each counter is the
-- number of references to it, no reference uses a counter that was deleted, and none is deleted twice.
pub Steps-IsCounted : (s : State) → Steps s → IsCounted s.heap s.refs × (length s.refs < 2 ^ 32)
Steps-IsCounted s start =
    (record { counts = λ c nz. refl; gone = λ c nz deleted. refl; once = tt }, omega arith)
Steps-IsCounted s (next {s = t} before b step) =
    let (i, few) = Steps-IsCounted t before in (Step-IsCounted t s i few b step, b)

-- In a state that is reached so, where one reference alone uses its counter, its destructor deletes
-- its object and its counter, and where another one uses it too, the destructor deletes nothing.
pub release-Steps :
    (s : State) (xs ys : List RefPtr) (r : RefPtr)
    → Steps s
    → s.refs ≡ xs ++ r ∷ ys
    → r.ref_count ≢ 0
    → (uses r.ref_count (xs ++ ys) ≡ 0
        → (release s.heap r).objects ≡ r.ptr ∷ s.heap.objects
          × (release s.heap r).counters ≡ r.ref_count ∷ s.heap.counters)
      × (uses r.ref_count (xs ++ ys) ≢ 0
          → (release s.heap r).objects ≡ s.heap.objects
            × (release s.heap r).counters ≡ s.heap.counters)
release-Steps s xs ys r steps e nz =
    let (i, few) = Steps-IsCounted s steps in
    let all : s.heap.count r.ref_count ≡ suc (uses r.ref_count (xs ++ ys)) =
      i.counts r.ref_count nz ∙ ap (uses r.ref_count) e ∙ uses-same xs ys r in
    let bound = uses-le r.ref_count s.refs in
    let used : uses r.ref_count s.refs ≡ suc (uses r.ref_count (xs ++ ys)) =
      ap (uses r.ref_count) e ∙ uses-same xs ys r in
    (
      λ alone.
          (let freed = release-last s.heap r nz (all ∙ ap suc alone) in
            (ap (λ h. h.objects) freed, ap (λ h. h.counters) freed)),
      λ shared. release-kept s.heap r (uses r.ref_count (xs ++ ys)) nz all shared (omega arith),
    )
