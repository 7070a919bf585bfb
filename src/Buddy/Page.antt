-- ===== src/Buddy/Page.antt =====
-- What `split` and `merge` make of the addresses of the pages.
use nite_os_project.Common.{
  ℕ, suc, ◌+◌, ◌-◌, ◌*◌, ◌%◌, ◌^◌, ◌<◌, ◌≤◌, ◌≡◌, ◌≢◌, refl, sym, ap, ◌∙◌, subst, arith, true,
  false,
}
use nite_os_project.Common.Words.{add64, sub64, mul64}
use nite_os_project.Common.Bits.{two-pow-pos}
use native.Mathlib.Nat.{pow-le-pow_right, mod-add-mod, mod-eq_of_lt}
use nite_os_project.Buddy.{
  PageInfo, Infos, put_info, flagged_free, size_of, split_offset, split, merge,
}

split-free :
    (m : Infos) (page k : ℕ)
    → flagged_free (m page) ≡ true
    → (m page).order ≡ suc k
    → k < 255
    → split m page ≡ (
      add64 page (mul64 (split_offset k) 56),
      put_info
          (put_info m page (record (m page) { order = k }))
          (add64 page (mul64 (split_offset k) 56))
          (record {
            order = k;
            flags = 0;
            address = add64 (m page).address (mul64 (split_offset k) 4096);
          }),
    )
unfolding split
split-free m page k h e b =
    let o : ((m page).order + 2 ^ 8 - 1) % 2 ^ 8 ≡ k = omega arith in rw (o, h) refl

put_two :
    (m : Infos) (a b : ℕ) (i j : PageInfo)
    → a ≢ b
    → (put_info (put_info m a i) b j a ≡ i) × (put_info (put_info m a i) b j b ≡ j)
put_two m a b i j h = ground arith

pow_small : (k : ℕ) → k ≤ 10 → 2 ^ k ≤ 1024
pow_small k h = pow-le-pow_right (omega arith) {j = 10} h

split_offset-small : (k : ℕ) → k ≤ 10 → split_offset k ≡ 2 ^ k * 56
unfolding split_offset
split_offset-small k h = omega (arith, pow_small k h)

split-taken : (m : Infos) (page : ℕ) → flagged_free (m page) ≡ false → split m page ≡ (0, m)
unfolding split
split-taken m page h = rw h refl

new_apart : (page k : ℕ) → k ≤ 10 → page < 2 ^ 63 → page ≢ add64 page (mul64 (split_offset k) 56)
new_apart page k b p = rw (split_offset-small k b) (omega (arith, two-pow-pos k, pow_small k b))

pub split-kept :
    (m : Infos) (page k : ℕ)
    → flagged_free (m page) ≡ true
    → (m page).order ≡ suc k
    → k < 10
    → page < 2 ^ 63
    → (split m page).1 page ≡ record (m page) { order = k }
split-kept m page k h e b p =
    rw (split-free m page k h e (omega arith))
      (put_two m page _ _ _ (new_apart page k (omega arith) p)).0

-- `split` of a free page of order 1 to 10, of a record and an address below 2^63, gives two pages of the order below. The second starts
-- at or behind the end of the page that was split, it is not free, and `split` of it is null.
pub split_lem :
    (m : Infos) (page k : ℕ)
    → flagged_free (m page) ≡ true
    → (m page).order ≡ suc k
    → k < 10
    → page < 2 ^ 63
    → (m page).address < 2 ^ 63
    → (((split m page).1 page).order ≡ k)
      × (((split m page).1 (split m page).0).order ≡ k)
      × ((m page).address + 2 ^ suc k * 4096 ≤ ((split m page).1 (split m page).0).address)
      × ((split (split m page).1 (split m page).0).0 ≡ 0)
split_lem m page k h e b p a =
    let small = pow_small k (omega arith) in
    let whole : 2 ^ suc k ≡ 2 ^ k + 2 ^ k = omega arith in
    let offset : split_offset k ≡ 2 ^ k * 56 = split_offset-small k (omega arith) in
    let new = add64 page (mul64 (split_offset k) 56) in
    let apart : page ≢ new = new_apart page k (omega arith) p in
    let base = (m page).address in
    let far : base + 2 ^ suc k * 4096 ≤ add64 base (mul64 (split_offset k) 4096) =
      rw offset (omega (arith, two-pow-pos k)) in
    let first : PageInfo = record (m page) { order = k } in
    let second : PageInfo = record {
      order = k;
      flags = 0;
      address = add64 base (mul64 (split_offset k) 4096);
    } in
    let (at_page, at_new) = put_two m page new first second apart in
    let left = put_info (put_info m page first) new second in
    rw (split-free m page k h e (omega arith)) (
      ap (λ (i : PageInfo). i.order) at_page,
      ap (λ (i : PageInfo). i.order) at_new,
      subst (λ (i : PageInfo). base + 2 ^ suc k * 4096 ≤ i.address) (sym at_new) far,
      ap (λ (r : ℕ × Infos). r.0)
          (split-taken left new (ap (λ (i : PageInfo). flagged_free i) at_new ∙ refl)),
    )

merge-null :
    (m : Infos) (this page : ℕ)
    → sub64 (m this).address (m page).address ≢ size_of (m this)
    → merge m this page ≡ (0, m)
unfolding merge
merge-null m this page h = ground arith

merge-this :
    (m : Infos) (this page : ℕ)
    → flagged_free (m this) ≡ true
    → flagged_free (m page) ≡ true
    → sub64 (m this).address (m page).address ≡ size_of (m this)
    → (m this).address % mul64 (size_of (m this)) 2 ≢ 0
    → merge m this page
      ≡ (this, put_info m this (record (m this) { order = ((m this).order + 1) % 2 ^ 8 }))
unfolding merge
merge-this m this page f g h n = ground arith

put_same : (m : Infos) (a : ℕ) (i : PageInfo) → put_info m a i a ≡ i
put_same m a i = ground arith

half_left : (a s n : ℕ) → a % n ≡ 0 → 0 < s → s < n → (a + s) % n ≢ 0
half_left a s n h pos less z =
    let plain : 0 + s ≡ s = omega arith in
    let kept : (a + s) % n ≡ s =
      sym (mod-add-mod a n s)
      ∙ ap (λ (t : ℕ). (t + s) % n) h
      ∙ ap (λ (t : ℕ). t % n) plain
      ∙ mod-eq_of_lt less in
    omega arith

size_of-order : (i : PageInfo) (k : ℕ) → i.order ≡ k → k ≤ 10 → size_of i ≡ 2 ^ k * 4096
unfolding size_of
size_of-order i k h b = rw h (omega (arith, pow_small k b))

-- Let two free pages of one order below 10 follow each other, the first at a multiple of twice their
-- size. `merge` of the first with the second is null. `merge` of the second of two such
-- pages with the first gives the second, at twice the size, although its address is not a multiple
-- of that.
pub merge_lem :
    (m : Infos) (lower upper k : ℕ)
    → k < 10
    → flagged_free (m lower) ≡ true
    → flagged_free (m upper) ≡ true
    → (m lower).order ≡ k
    → (m upper).order ≡ k
    → (m upper).address ≡ (m lower).address + 2 ^ k * 4096
    → (m upper).address < 2 ^ 64
    → (m lower).address % (2 ^ suc k * 4096) ≡ 0
    → (merge m lower upper ≡ (0, m))
      × ((merge m upper lower).0 ≡ upper)
      × (((merge m upper lower).1 upper).order ≡ suc k)
      × ((m upper).address % (2 ^ suc k * 4096) ≢ 0)
merge_lem m lower upper k b fl fu ol ou a t g =
    let small = pow_small k (omega arith) in
    let whole : 2 ^ suc k ≡ 2 ^ k + 2 ^ k = omega arith in
    let size_l = size_of-order (m lower) k ol (omega arith) in
    let size_u = size_of-order (m upper) k ou (omega arith) in
    let odd : (m upper).address % (2 ^ suc k * 4096) ≢ 0 = λ z.
      half_left (m lower).address (2 ^ k * 4096) (2 ^ suc k * 4096) g (omega (arith, two-pow-pos k))
        (omega (arith, two-pow-pos k)) (sym (ap (λ (t : ℕ). t % (2 ^ suc k * 4096)) a) ∙ z) in
    let wrapped : sub64 (m lower).address (m upper).address ≢ size_of (m lower) =
      rw size_l (omega (arith, two-pow-pos k)) in
    let joined : sub64 (m upper).address (m lower).address ≡ size_of (m upper) =
      rw size_u (omega (arith, two-pow-pos k)) in
    let twice : mul64 (size_of (m upper)) 2 ≡ 2 ^ suc k * 4096 = rw size_u (omega arith) in
    let result = merge-this m upper lower fu fl joined (rw twice odd) in
    (
      merge-null m lower upper wrapped,
      ap (λ (r : ℕ × Infos). r.0) result,
      ap (λ (r : ℕ × Infos). (r.1 upper).order) result
          ∙ ap (λ (i : PageInfo). i.order)
              (put_same m upper (record (m upper) { order = ((m upper).order + 1) % 2 ^ 8 }))
          ∙ omega arith,
      odd,
    )
