-- ===== src/Bytes/Copy.antt =====
-- The words of `memcpy` move the bytes as one move of all of them does.
use nite_os_project.Common.{
  ℕ, zero, suc, ◌+◌, ◌-◌, ◌<◌, ◌≤◌, ◌≡◌, ◌⊎◌, inl, inr, refl, sym, ap, ◌∙◌, fun_ext, arith, ◌&&◌,
  ltb, leb, Bool-cases, some,
}
use nite_os_project.Bytes.{Memory, move, Copying, copy_loop, memcpy}

-- The destination starts no later than the source, or behind its end.
abbrev pub IsForward : ℕ → ℕ → ℕ → Type 0
IsForward to from size = (to ≤ from) ⊎ (from + size ≤ to)

move-nothing : (m : Memory) (to from : ℕ) → move m to from 0 ≡ m
move-nothing m to from = fun_ext (λ a. ground arith)

pub move-inside :
    (m : Memory) (to from k a : ℕ) → to ≤ a → a < to + k → move m to from k a ≡ m (from + (a - to))
move-inside m to from k a h b = ground arith

pub move-outside :
    (m : Memory) (to from k a : ℕ) → (a < to) ⊎ (to + k ≤ a) → move m to from k a ≡ m a
move-outside m to from k a h = ground (arith, h)

move-move :
    (m : Memory) (to from j k a : ℕ)
    → IsForward to from (j + k)
    → move (move m to from j) (to + j) (from + j) k a ≡ move m to from (j + k) a
move-move m to from j k a f = elim (Bool-cases (leb (to + j) a && ltb a (to + j + k))) [
  | inl second ↦
      let source : from + j + (a - (to + j)) ≡ from + (a - to) = ground arith in
      move-inside (move m to from j) (to + j) (from + j) k a (ground arith) (ground arith)
      ∙ move-outside m to from j (from + j + (a - (to + j))) (ground (arith, f))
      ∙ ap m source
      ∙ sym (move-inside m to from (j + k) a (ground arith) (ground arith))
  | inr other ↦ elim (Bool-cases (leb to a && ltb a (to + j))) [
    | inl first ↦
        move-outside (move m to from j) (to + j) (from + j) k a (ground arith)
        ∙ move-inside m to from j a (ground arith) (ground arith)
        ∙ sym (move-inside m to from (j + k) a (ground arith) (ground arith))
    | inr outside ↦
        move-outside (move m to from j) (to + j) (from + j) k a (ground arith)
        ∙ move-outside m to from j a (ground arith)
        ∙ sym (move-outside m to from (j + k) a (ground arith))
  ]
]

-- What a loop leaves of `c`: fewer bytes than it moves in a round, and the others moved.
abbrev pub Moved : ℕ → Copying → Copying → Type 0
Moved size c r =
    (r.left < size)
    × (r.left ≤ c.left)
    × (r.dp + r.left ≡ c.dp + c.left)
    × (r.sp + r.left ≡ c.sp + c.left)
    × (r.memory ≡ move c.memory c.dp c.sp (c.left - r.left))

copy_loop-Moved :
    (fuel size : ℕ) (c : Copying)
    → 0 < size
    → c.left < fuel
    → IsForward c.dp c.sp c.left
    → (r : Copying) × (copy_loop fuel size c ≡ some r) × Moved size c r
unfolding copy_loop
copy_loop-Moved zero size c p h f = absurd (omega arith)
copy_loop-Moved (suc fuel) size c p h f = elim (Bool-cases (leb size c.left)) [
  | inr done ↦
      let nothing : 0 ≡ c.left - c.left = omega arith in
      (
        c,
        rw done refl,
        (
          ground arith,
          omega arith,
          refl,
          refl,
          sym (move-nothing c.memory c.dp c.sp) ∙ ap (λ (k : ℕ). move c.memory c.dp c.sp k) nothing,
        ),
      )
  | inl more ↦
      let next : Copying = record {
        memory = move c.memory c.dp c.sp size;
        dp = c.dp + size;
        sp = c.sp + size;
        left = c.left - size;
      } in
      let (r, e, (less, le, dps, sps, m)) =
        copy_loop-Moved fuel size next p (ground arith) (ground (arith, f)) in
      let moved : size + (c.left - size - r.left) ≡ c.left - r.left = ground arith in
      (
        r,
        rw more e,
        (
          less,
          ground arith,
          ground arith,
          ground arith,
          m
              ∙ fun_ext (λ a.
                move-move c.memory c.dp c.sp size (c.left - size - r.left) a (ground (arith, f)))
              ∙ ap (λ (k : ℕ). move c.memory c.dp c.sp k) moved,
        ),
      )
]

Moved-trans :
    (first second : ℕ) (c r t : Copying)
    → IsForward c.dp c.sp c.left
    → Moved first c r
    → Moved second r t
    → Moved second c t
Moved-trans first second c r t f (less, le, dps, sps, m) (less2, le2, dps2, sps2, m2) =
    let j = c.left - r.left in
    let k = r.left - t.left in
    let to : r.dp ≡ c.dp + j = omega arith in
    let from : r.sp ≡ c.sp + j = omega arith in
    let all : j + k ≡ c.left - t.left = omega arith in
    (
      less2,
      omega arith,
      omega arith,
      omega arith,
      m2
          ∙ ap (λ n. move n r.dp r.sp k) m
          ∙ ap (λ (d : ℕ). move (move c.memory c.dp c.sp j) d r.sp k) to
          ∙ ap (λ (d : ℕ). move (move c.memory c.dp c.sp j) (c.dp + j) d k) from
          ∙ fun_ext (λ a. move-move c.memory c.dp c.sp j k a (ground (arith, f)))
          ∙ ap (λ (d : ℕ). move c.memory c.dp c.sp d) all,
    )

Moved-IsForward :
    (size : ℕ) (c r : Copying)
    → IsForward c.dp c.sp c.left
    → Moved size c r
    → IsForward r.dp r.sp r.left
Moved-IsForward size c r f (less, le, dps, sps, m) = ground (arith, f)

-- `memcpy` to a destination that starts no later than the source, or behind its end, ends, and
-- leaves the memory as one move of all the bytes does: those of the source as they were before now
-- stand at the destination, and the others are unchanged.
pub memcpy_lem :
    (fuel : ℕ) (m : Memory) (dest src count : ℕ)
    → count < fuel
    → IsForward dest src count
    → memcpy fuel m dest src count ≡ some (move m dest src count)
unfolding memcpy
memcpy_lem fuel m dest src count h f =
    let c : Copying = record { memory = m; dp = dest; sp = src; left = count } in
    let (eights, e8, moved8) = copy_loop-Moved fuel 8 c (omega arith) h f in
    let (fours, e4, moved4) =
      copy_loop-Moved fuel 4 eights (omega arith) (omega (arith, moved8))
        (Moved-IsForward 8 c eights f moved8) in
    let to4 = Moved-trans 8 4 c eights fours f moved8 moved4 in
    let (ones, e1, moved1) =
      copy_loop-Moved fuel 1 fours (omega arith) (omega (arith, to4))
        (Moved-IsForward 4 c fours f to4) in
    let (less, le, dps, sps, done) = Moved-trans 4 1 c fours ones f to4 moved1 in
    let all : count - ones.left ≡ count = omega arith in
    rw (e8, e4, e1) (ap some (done ∙ ap (λ (k : ℕ). move m dest src k) all))
