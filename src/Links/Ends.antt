-- ===== src/Links/Ends.antt =====
-- A chain from null to null with pointers to its two ends, and the changes that lists make to it.
use nite_os_project.Common.{
  ℕ, ◌==◌, if◌then◌else◌, ◌≡◌, ◌≢◌, refl, sym, ap, ◌∙◌, arith, List, [], ◌∷◌, ◌++◌,
}
use nite_os_project.Links.{Store, set_next, set_previous}
use nite_os_project.Links.Chain.{
  first, last, Fresh, Distinct, Apart, Apart-tail, Apart-Fresh, Distinct-split, Distinct-append,
  Fresh-Apart, Fresh-last, last-append, Chain, Chain-append, Chain-split, Chain-last,
  Chain-set_next-last, Chain-set_previous, Chain-set_previous-first, put_after,
}
use nite_os_project.Links.Unlink.{join_before, join_after, Chain-unlink}

pub record Ends (m : Store) (head tail : ℕ) (xs : List ℕ) : Type 0 where
  pub head_eq : head ≡ first xs 0
  pub tail_eq : tail ≡ last 0 xs
  pub chain : Chain m 0 xs 0
  pub distinct : Distinct xs

pub Ends-empty : (m : Store) → Ends m 0 0 []
Ends-empty m = record { head_eq = refl; tail_eq = refl; chain = tt; distinct = tt }

pub Ends-single :
    (m : Store) (a : ℕ) → a ≢ 0 → (m a).next ≡ 0 → (m a).previous ≡ 0 → Ends m a a (a ∷ [])
Ends-single m a nz n p = record {
  head_eq = refl;
  tail_eq = refl;
  chain = (nz, p, n, tt);
  distinct = (tt, tt);
}

-- A new entry is hung on the tail.
pub Ends-add :
    (m : Store) (head tail x : ℕ) (xs : List ℕ) (a : ℕ)
    → Ends m head tail (x ∷ xs)
    → a ≢ 0
    → Fresh a (x ∷ xs)
    → (m a).next ≡ 0
    → Ends (set_previous (set_next m tail a) a tail) head a (x ∷ xs ++ a ∷ [])
Ends-add m head tail x xs a h nz f n =
    let apart : a ≢ last x xs = Fresh-last x xs f in
    let new = put_after m a (last x xs) apart n in
    let linked =
      Chain-set_previous (set_next m (last x xs) a) a (last x xs) 0 (x ∷ xs) a f
        (Chain-set_next-last m a 0 x xs 0 h.distinct h.chain) in
    rw h.tail_eq (record {
      head_eq = h.head_eq;
      tail_eq = sym (last-append x xs (a ∷ []));
      chain = Chain-append _ 0 (x ∷ xs) (a ∷ []) 0 linked (nz, new.0, new.1, tt);
      distinct = Distinct-append (x ∷ xs) (a ∷ []) h.distinct (tt, tt) (Fresh-Apart a (x ∷ xs) f);
    })

-- The head moves on to the second entry.
pub Ends-drop_first :
    (m : Store) (head tail x y : ℕ) (ys : List ℕ)
    → Ends m head tail (x ∷ y ∷ ys)
    → Ends (set_previous m y 0) y tail (y ∷ ys)
Ends-drop_first m head tail x y ys h =
    let (k, e, g, c) = h.chain in
    let (f, d) = h.distinct in
    record {
      head_eq = refl;
      tail_eq = h.tail_eq;
      chain = Chain-set_previous-first m 0 x y ys 0 d c;
      distinct = d;
    }

pub if_ne : (x t y : ℕ) → y ≢ 0 → (if y == 0 then x else t) ≡ t
if_ne x t y h = ground arith

pub head_left :
    (m : Store) (xs ys : List ℕ) (a head : ℕ)
    → Chain m 0 xs a
    → head ≡ first (xs ++ a ∷ ys) 0
    → (if last 0 xs == 0 then first ys 0 else head) ≡ first (xs ++ ys) 0
head_left m [] ys a head c h = refl
head_left m (x ∷ xs) ys a head c h =
    if_ne (first ys 0) head (last x xs) (Chain-last m 0 x xs a c) ∙ h

pub tail_left :
    (m : Store) (xs ys : List ℕ) (a tail : ℕ)
    → Chain m a ys 0
    → tail ≡ last 0 (xs ++ a ∷ ys)
    → (if first ys 0 == 0 then last 0 xs else tail) ≡ last 0 (xs ++ ys)
tail_left m xs [] a tail c h = sym (last-append 0 xs [])
tail_left m xs (y ∷ ys) a tail (z, b, n, c) h =
    if_ne (last 0 xs) tail y z ∙ h ∙ last-append 0 xs (a ∷ y ∷ ys) ∙ sym (last-append 0 xs (y ∷ ys))

-- The entry at `a` is left out, wherever it stands.
pub Ends-unlink :
    (m : Store) (head tail : ℕ) (xs ys : List ℕ) (a : ℕ)
    → Ends m head tail (xs ++ a ∷ ys)
    → Ends
        (join_after (join_before m (last 0 xs) (first ys 0)) (last 0 xs) (first ys 0))
        (if last 0 xs == 0 then first ys 0 else head)
        (if first ys 0 == 0 then last 0 xs else tail)
        (xs ++ ys)
Ends-unlink m head tail xs ys a h =
    let (cx, (nz, e, f, cy)) = Chain-split m 0 xs (a ∷ ys) 0 h.chain in
    let (dx, (fy, dy), ap) = Distinct-split xs (a ∷ ys) h.distinct in
    record {
      head_eq = head_left m xs ys a head cx h.head_eq;
      tail_eq = tail_left m xs ys a tail cy h.tail_eq;
      chain = Chain-unlink m xs ys a h.distinct h.chain;
      distinct = Distinct-append xs ys dx dy (Apart-tail a xs ys ap);
    }

not_last : (xs ys : List ℕ) (a : ℕ) → a ≢ 0 → Apart xs (a ∷ ys) → a ≢ last 0 xs
not_last [] ys a z p = z
not_last (x ∷ xs) ys a z p = Fresh-last x xs (Apart-Fresh a (x ∷ xs) ys p)

-- What the entry at `a` links to.
pub Ends-around :
    (m : Store) (head tail : ℕ) (xs ys : List ℕ) (a : ℕ)
    → Ends m head tail (xs ++ a ∷ ys)
    → (a ≢ 0) × ((m a).previous ≡ last 0 xs) × ((m a).next ≡ first ys 0) × (a ≢ last 0 xs)
Ends-around m head tail xs ys a h =
    let (cx, (nz, e, f, cy)) = Chain-split m 0 xs (a ∷ ys) 0 h.chain in
    let (dx, dy, ap) = Distinct-split xs (a ∷ ys) h.distinct in (nz, e, f, not_last xs ys a nz ap)

-- The first, the last, or an inner entry is left out.
pub Ends-drop_head :
    (m : Store) (head tail a : ℕ) (ys : List ℕ)
    → Ends m head tail (a ∷ ys)
    → Ends (join_after m 0 (first ys 0)) (first ys 0) (if first ys 0 == 0 then 0 else tail) ys
unfolding join_before
Ends-drop_head m head tail a ys h = Ends-unlink m head tail [] ys a h

pub Ends-drop_last :
    (m : Store) (head tail x a : ℕ) (xs : List ℕ)
    → Ends m head tail (x ∷ xs ++ a ∷ [])
    → Ends (join_before m (last x xs) 0) head (last x xs) (x ∷ xs ++ [])
unfolding join_after
Ends-drop_last m head tail x a xs h =
    let left = Ends-unlink m head tail (x ∷ xs) [] a h in
    record {
      head_eq = h.head_eq;
      tail_eq = left.tail_eq;
      chain = left.chain;
      distinct = left.distinct;
    }

pub Ends-drop_inner :
    (m : Store) (head tail x y a : ℕ) (xs ys : List ℕ)
    → Ends m head tail (x ∷ xs ++ a ∷ y ∷ ys)
    → Ends (join_after (join_before m (last x xs) y) (last x xs) y) head tail (x ∷ xs ++ y ∷ ys)
Ends-drop_inner m head tail x y a xs ys h =
    let left = Ends-unlink m head tail (x ∷ xs) (y ∷ ys) a h in
    let (cx, cy) = Chain-split m 0 (x ∷ xs) (a ∷ y ∷ ys) 0 h.chain in
    record {
      head_eq = h.head_eq;
      tail_eq = sym (if_ne (last x xs) tail y cy.3.0) ∙ left.tail_eq;
      chain = left.chain;
      distinct = left.distinct;
    }
