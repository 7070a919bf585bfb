-- ===== src/Common/Update.antt =====
-- Memories and tables as functions from addresses and indices, and writes to them.
use Prim.Native.Nat.{ℕ}
use mathlib.Core.Path.{◌≡◌, refl, sym, ap}
use mathlib.Core.Logic.{◌≢◌, ◌⊎◌, inl, inr}
use mathlib.Core.Bool.{false}
use native.Mathlib.Omega.{arith}
use nite_os_project.Common.Tests.{◌==◌, if◌then◌else◌, Bool-cases}

abbrev pub update {ℓ} : {A : Type ℓ} → (ℕ → A) → ℕ → A → ℕ → A
update f i v d = if d == i then v else f d

-- Writes to a table of tables.
pub update-same :
    {A : Type 0} (f : ℕ → ℕ → A) (i j : ℕ) (v : A) → update f i (update (f i) j v) i j ≡ v
update-same f i j v = ground arith

pub update-others :
    {A : Type 0} (f : ℕ → ℕ → A) (i j : ℕ) (v : A) (p q : ℕ)
    → (p ≢ i) ⊎ (q ≢ j)
    → update f i (update (f i) j v) p q ≡ f p q
update-others f i j v p q h = elim (Bool-cases (p == i)) [
  | inr other ↦ rw other refl
  | inl here ↦
      let e : p ≡ i = ground arith in
      let miss : (q == j) ≡ false = ground arith in rw (here, miss) (ap (λ (d : ℕ). f d q) (sym e))
]

pub update-hit : {A : Type 0} (f : ℕ → A) (i : ℕ) (v : A) → update f i v i ≡ v
update-hit f i v = ground arith

pub update-miss : {A : Type 0} (f : ℕ → A) (i : ℕ) (v : A) (d : ℕ) → d ≢ i → update f i v d ≡ f d
update-miss f i v d ne = ground arith
