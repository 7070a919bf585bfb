-- ===== src/RefPtr/Uses.antt =====
-- The uses of the counters of references, and what the operations do to a counter.
use nite_os_project.Common.{
  ℕ, zero, suc, ◌+◌, ◌^◌, ◌<◌, ◌≤◌, ◌≡◌, ◌≢◌, refl, ap, arith, Bool, true, false, ◌||◌, ◌==◌,
  if◌then◌else◌, List, [], ◌∷◌, ◌++◌, length,
}
use nite_os_project.Common.Words.{sub32}
use nite_os_project.RefPtr.{RefPtr, Heap, write, new_ref, copy_ref, release, assign}

-- How many references of the list use the counter `c`.
abbrev pub uses : ℕ → List RefPtr → ℕ
uses c [] = 0
uses c (r ∷ rs) = (if r.ref_count == c then 1 else 0) + uses c rs

abbrev pub elem : ℕ → List ℕ → Bool
elem c [] = false
elem c (d ∷ ds) = (c == d) || elem c ds

abbrev pub Once : List ℕ → Type 0
Once [] = Unit
Once (c ∷ cs) = (elem c cs ≡ false) × Once cs

-- The heap with the references that are alive.
pub record State : Type 0 where
  pub heap : Heap
  pub refs : List RefPtr

pub data Step : State → State → Type 0 where
  -- `new unsigned` gives an address that no reference uses and that was not deleted.
  made :
      {h : Heap} {refs : List RefPtr} (c ptr : ℕ)
      → c ≢ 0
      → uses c refs ≡ 0
      → elem c h.counters ≡ false
      → Step
          (record { heap = h; refs = refs })
          (record { heap = (new_ref h c ptr).0; refs = (new_ref h c ptr).1 ∷ refs })
  copied :
      {h : Heap} (xs ys : List RefPtr) (r : RefPtr)
      → Step
          (record { heap = h; refs = xs ++ r ∷ ys })
          (record { heap = (copy_ref h r).0; refs = (copy_ref h r).1 ∷ (xs ++ r ∷ ys) })
  destroyed :
      {h : Heap} (xs ys : List RefPtr) (r : RefPtr)
      → Step
          (record { heap = h; refs = xs ++ r ∷ ys })
          (record { heap = release h r; refs = xs ++ ys })
  -- The reference `r` is assigned `o`, another variable.
  assigned :
      {h : Heap} (xs ys us vs : List RefPtr) (r o : RefPtr)
      → xs ++ ys ≡ us ++ o ∷ vs
      → Step
          (record { heap = h; refs = xs ++ r ∷ ys })
          (record { heap = (assign h false r o).0; refs = xs ++ (assign h false r o).1 ∷ ys })
  self_assigned :
      {h : Heap} (xs ys : List RefPtr) (r : RefPtr)
      → Step
          (record { heap = h; refs = xs ++ r ∷ ys })
          (record { heap = (assign h true r r).0; refs = xs ++ (assign h true r r).1 ∷ ys })

pub data Steps : State → Type 0 where
  start :
      Steps (record { heap = record { count = λ c. 0; objects = []; counters = [] }; refs = [] })
  next : {s t : State} → Steps s → length t.refs < 2 ^ 32 → Step s t → Steps t

pub record IsCounted (h : Heap) (refs : List RefPtr) : Type 0 where
  pub counts : (c : ℕ) → c ≢ 0 → h.count c ≡ uses c refs
  pub gone : (c : ℕ) → c ≢ 0 → elem c h.counters ≡ true → uses c refs ≡ 0
  pub once : Once h.counters

pub uses-middle :
    (c : ℕ) (xs ys : List RefPtr) (r : RefPtr)
    → uses c (xs ++ r ∷ ys) ≡ (if r.ref_count == c then 1 else 0) + uses c (xs ++ ys)
uses-middle c [] ys r = refl
uses-middle c (x ∷ xs) ys r = omega (arith, uses-middle c xs ys r)

pub uses-le : (c : ℕ) (rs : List RefPtr) → uses c rs ≤ length rs
uses-le c [] = omega arith
uses-le c (r ∷ rs) = ground (arith, uses-le c rs)

-- The three ways through `release`.
pub release-null : (h : Heap) (r : RefPtr) → r.ref_count ≡ 0 → release h r ≡ h
unfolding release
release-null h r z = ground arith

pub release-last :
    (h : Heap) (r : RefPtr)
    → r.ref_count ≢ 0
    → h.count r.ref_count ≡ 1
    → release h r ≡ record h {
      count = write h.count r.ref_count 0;
      objects = r.ptr ∷ h.objects;
      counters = r.ref_count ∷ h.counters;
    }
unfolding release
release-last h r z one = rw one (ground arith)

pub release-more :
    (h : Heap) (r : RefPtr) (n : ℕ)
    → r.ref_count ≢ 0
    → h.count r.ref_count ≡ suc (suc n)
    → suc (suc n) < 2 ^ 32
    → release h r ≡ record h { count = write h.count r.ref_count (suc n) }
unfolding release
release-more h r n z more b =
    let less : sub32 (suc (suc n)) 1 ≡ suc n = omega arith in rw (more, less) (ground arith)

pub release-kept :
    (h : Heap) (r : RefPtr) (n : ℕ)
    → r.ref_count ≢ 0
    → h.count r.ref_count ≡ suc n
    → n ≢ 0
    → suc n < 2 ^ 32
    → ((release h r).objects ≡ h.objects) × ((release h r).counters ≡ h.counters)
release-kept h r zero z e nz b = absurd (nz refl)
release-kept h r (suc n) z e nz b =
    let kept = release-more h r n z e b in (ap (λ h. h.objects) kept, ap (λ h. h.counters) kept)

-- One use less of the counter of `r`, and as many of each other.
pub uses-same :
    (xs ys : List RefPtr) (r : RefPtr)
    → uses r.ref_count (xs ++ r ∷ ys) ≡ suc (uses r.ref_count (xs ++ ys))
uses-same xs ys r = ground (arith, uses-middle r.ref_count xs ys r)

pub uses-other :
    (c : ℕ) (xs ys : List RefPtr) (r : RefPtr)
    → r.ref_count ≢ c
    → uses c (xs ++ r ∷ ys) ≡ uses c (xs ++ ys)
uses-other c xs ys r ne = ground (arith, uses-middle c xs ys r)
