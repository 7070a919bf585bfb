-- ===== src/Bytes/Compare.antt =====
-- `memcmp` compares as lists are compared, and `memset` fills what it is given.
use nite_os_project.Common.{
  ℕ, zero, suc, ◌+◌, ◌%◌, ◌^◌, ◌<◌, ◌≡◌, ◌⊎◌, inl, inr, refl, ap, ◌∙◌, subst, arith, ◌&&◌, ltb, leb,
  ◌==◌, if◌then◌else◌, Bool-cases, update, update-hit, update-miss,
}
use nite_os_project.Bytes.{Memory, memset, memcmp, minus_one}

-- The first `i` bytes agree.
abbrev pub Agree : Memory → ℕ → ℕ → ℕ → Type 0
Agree m a b i = (j : ℕ) → j < i → m (a + j) ≡ m (b + j)

Agree-cons : (m : Memory) (a b i : ℕ) → m a ≡ m b → Agree m (a + 1) (b + 1) i → Agree m a b (suc i)
Agree-cons m a b i e g zero h = ap m (omega arith) ∙ e ∙ ap m (omega arith)
Agree-cons m a b i e g (suc j) h = ap m (omega arith) ∙ g j (omega arith) ∙ ap m (omega arith)

-- All bytes agree, or there is a first one that does not, and the result tells which is the lower.
abbrev pub Compared : Memory → ℕ → ℕ → ℕ → ℕ → Type 0
Compared m a b n result =
    (result ≡ 0) × Agree m a b n
    ⊎ ((i : ℕ) × (i < n)
        × Agree m a b i
        × ((result ≡ minus_one) × (m (a + i) < m (b + i)) ⊎ (result ≡ 1) × (m (b + i) < m (a + i))))

Compared-cons :
    (m : Memory) (a b n result : ℕ)
    → m a ≡ m b
    → Compared m (a + 1) (b + 1) n result
    → Compared m a b (suc n) result
Compared-cons m a b n result e (inl (z, g)) = inl (z, Agree-cons m a b n e g)
Compared-cons m a b n result e (inr (i, h, g, order)) =
    let here : a + 1 + i ≡ a + suc i = omega arith in
    let there : b + 1 + i ≡ b + suc i = omega arith in
    inr (
      suc i,
      omega arith,
      Agree-cons m a b i e g,
      subst
          (λ (p : ℕ).
            (result ≡ minus_one) × (m p < m (b + suc i)) ⊎ (result ≡ 1) × (m (b + suc i) < m p))
          here
          (subst
            (λ (q : ℕ).
              (result ≡ minus_one) × (m (a + 1 + i) < m q) ⊎ (result ≡ 1) × (m q < m (a + 1 + i)))
            there order),
    )

-- `memcmp` answers 0 if all bytes agree. Otherwise it answers -1 or 1, as the first byte of the first
-- operand that differs from that of the second is lower or higher.
pub memcmp-Compared : (m : Memory) (a b n : ℕ) → Compared m a b n (memcmp m a b n)
unfolding memcmp
memcmp-Compared m a b zero = inl (refl, λ j h. absurd (omega arith))
memcmp-Compared m a b (suc n) =
    let here : a + 0 ≡ a = omega arith in
    let there : b + 0 ≡ b = omega arith in
    elim (Bool-cases (ltb (m a) (m b))) [
      | inl lower ↦ rw lower (
          inr (
            0,
            omega arith,
            (λ j h. absurd (omega arith)),
            inl (refl, rw (here, there) (ground arith)),
          ))
      | inr other ↦ elim (Bool-cases (ltb (m b) (m a))) [
        | inl higher ↦
            rw (other, higher)
              (inr (
                0,
                omega arith,
                (λ j h. absurd (omega arith)),
                inr (refl, rw (here, there) (ground arith)),
              ))
        | inr same ↦
            rw (other, same)
              (Compared-cons m a b n (memcmp m (a + 1) (b + 1) n) (ground arith)
                (memcmp-Compared m (a + 1) (b + 1) n))
      ]
    ]

memset-below : (m : Memory) (to c n a : ℕ) → a < to → memset m to c n a ≡ m a
unfolding memset
memset-below m to c zero a h = refl
memset-below m to c (suc n) a h =
    memset-below (update m to (c % 2 ^ 8)) (to + 1) c n a (omega arith)
    ∙ update-miss m to (c % 2 ^ 8) a (ground (arith, h))

-- `memset` gives each of the bytes the lowest 8 bits of the value, and leaves the others.
pub memset_lem :
    (m : Memory) (to c n a : ℕ)
    → memset m to c n a ≡ (if leb to a && ltb a (to + n) then c % 2 ^ 8 else m a)
unfolding memset
memset_lem m to c zero a = ground arith
memset_lem m to c (suc n) a = elim (Bool-cases (a == to)) [
  | inl here ↦
      (let start : a ≡ to = ground arith in
        memset-below (update m to (c % 2 ^ 8)) (to + 1) c n a (ground arith)
        ∙ ap (update m to (c % 2 ^ 8)) start
        ∙ update-hit m to (c % 2 ^ 8)
        ∙ ground arith)
  | inr other ↦ memset_lem (update m to (c % 2 ^ 8)) (to + 1) c n a ∙ ground arith
]
