-- ===== src/Links/Chain.antt =====
-- Doubly linked chains in the memory of Links, and how an assignment to a link changes them.
use nite_os_project.Common.{ℕ, ◌≡◌, ◌≢◌, refl, sym, ◌∙◌, arith, List, [], ◌∷◌, ◌++◌}
use nite_os_project.Links.{Store, set_next, set_previous}

abbrev pub first : List ℕ → ℕ → ℕ
first [] n = n
first (x ∷ xs) n = x

abbrev pub last : ℕ → List ℕ → ℕ
last p [] = p
last p (x ∷ xs) = last x xs

abbrev pub Fresh : ℕ → List ℕ → Type 0
Fresh a [] = Unit
Fresh a (x ∷ xs) = (a ≢ x) × Fresh a xs

abbrev pub Distinct : List ℕ → Type 0
Distinct [] = Unit
Distinct (x ∷ xs) = Fresh x xs × Distinct xs

-- The entries at `xs` are linked both ways, between the entry `p` before and the entry `n` after.
abbrev pub Chain : Store → ℕ → List ℕ → ℕ → Type 0
Chain m p [] n = Unit
Chain m p (x ∷ xs) n = (x ≢ 0) × ((m x).previous ≡ p) × ((m x).next ≡ first xs n) × Chain m x xs n

pub first-append : (xs ys : List ℕ) (n : ℕ) → first (xs ++ ys) n ≡ first xs (first ys n)
first-append [] ys n = refl
first-append (x ∷ xs) ys n = refl

pub last-append : (p : ℕ) (xs ys : List ℕ) → last p (xs ++ ys) ≡ last (last p xs) ys
last-append p [] ys = refl
last-append p (x ∷ xs) ys = last-append x xs ys

pub Fresh-last : {a : ℕ} (x : ℕ) (xs : List ℕ) → Fresh a (x ∷ xs) → a ≢ last x xs
Fresh-last x [] (h, f) = h
Fresh-last x (y ∷ ys) (h, f) = Fresh-last y ys f

pub Fresh-split : (a : ℕ) (xs ys : List ℕ) → Fresh a (xs ++ ys) → Fresh a xs × Fresh a ys
Fresh-split a [] ys f = (tt, f)
Fresh-split a (x ∷ xs) ys (h, f) = let (g, k) = Fresh-split a xs ys f in ((h, g), k)

pub Fresh-append : (a : ℕ) (xs ys : List ℕ) → Fresh a xs → Fresh a ys → Fresh a (xs ++ ys)
Fresh-append a [] ys f g = g
Fresh-append a (x ∷ xs) ys (h, f) g = (h, Fresh-append a xs ys f g)

-- No entry of `xs` is one of `ys`.
abbrev pub Apart : List ℕ → List ℕ → Type 0
Apart [] ys = Unit
Apart (x ∷ xs) ys = Fresh x ys × Apart xs ys

pub Distinct-split :
    (xs ys : List ℕ) → Distinct (xs ++ ys) → Distinct xs × Distinct ys × Apart xs ys
Distinct-split [] ys d = (tt, d, tt)
Distinct-split (x ∷ xs) ys (f, d) =
    let (g, k) = Fresh-split x xs ys f in
    let (d1, d2, a) = Distinct-split xs ys d in ((g, d1), d2, (k, a))

pub Distinct-append :
    (xs ys : List ℕ) → Distinct xs → Distinct ys → Apart xs ys → Distinct (xs ++ ys)
Distinct-append [] ys d e a = e
Distinct-append (x ∷ xs) ys (f, d) e (g, a) =
    (Fresh-append x xs ys f g, Distinct-append xs ys d e a)

pub Apart-tail : (y : ℕ) (xs ys : List ℕ) → Apart xs (y ∷ ys) → Apart xs ys
Apart-tail y [] ys a = tt
Apart-tail y (x ∷ xs) ys ((h, f), a) = (f, Apart-tail y xs ys a)

pub Apart-Fresh : (y : ℕ) (xs ys : List ℕ) → Apart xs (y ∷ ys) → Fresh y xs
Apart-Fresh y [] ys a = tt
Apart-Fresh y (x ∷ xs) ys ((h, f), a) = ((λ e. h (sym e)), Apart-Fresh y xs ys a)

pub Fresh-Apart : (y : ℕ) (xs : List ℕ) → Fresh y xs → Apart xs (y ∷ [])
Fresh-Apart y [] f = tt
Fresh-Apart y (x ∷ xs) (h, f) = (((λ e. h (sym e)), tt), Fresh-Apart y xs f)

pub Apart-last : (p : ℕ) (xs ys : List ℕ) → Fresh p ys → Apart xs ys → Fresh (last p xs) ys
Apart-last p [] ys f a = f
Apart-last p (x ∷ xs) ys f (g, a) = Apart-last x xs ys g a

module _ (m : Store) where
  pub Chain-append :
      (p : ℕ) (xs ys : List ℕ) (n : ℕ)
      → Chain m p xs (first ys n)
      → Chain m (last p xs) ys n
      → Chain m p (xs ++ ys) n
  Chain-append p [] ys n c d = d
  Chain-append p (x ∷ xs) ys n (h, e, g, c) d =
      (h, e, g ∙ sym (first-append xs ys n), Chain-append x xs ys n c d)

  pub Chain-split :
      (p : ℕ) (xs ys : List ℕ) (n : ℕ)
      → Chain m p (xs ++ ys) n
      → Chain m p xs (first ys n) × Chain m (last p xs) ys n
  Chain-split p [] ys n c = (tt, c)
  Chain-split p (x ∷ xs) ys n (h, e, g, c) =
      let (d, k) = Chain-split x xs ys n c in ((h, e, g ∙ first-append xs ys n, d), k)

  -- An assignment to the links of an entry outside leaves a chain.
  pub Chain-set_next :
      (a v : ℕ) (p : ℕ) (xs : List ℕ) (n : ℕ)
      → Fresh a xs
      → Chain m p xs n
      → Chain (set_next m a v) p xs n
  Chain-set_next a v p [] n f c = tt
  Chain-set_next a v p (x ∷ xs) n (h, f) (k, e, g, c) =
      (k, ground arith, ground arith, Chain-set_next a v x xs n f c)

  pub Chain-set_previous :
      (a v : ℕ) (p : ℕ) (xs : List ℕ) (n : ℕ)
      → Fresh a xs
      → Chain m p xs n
      → Chain (set_previous m a v) p xs n
  Chain-set_previous a v p [] n f c = tt
  Chain-set_previous a v p (x ∷ xs) n (h, f) (k, e, g, c) =
      (k, ground arith, ground arith, Chain-set_previous a v x xs n f c)

  -- The last entry of a chain is pointed at another entry.
  pub Chain-set_next-last :
      (v : ℕ) (p x : ℕ) (xs : List ℕ) (n : ℕ)
      → Distinct (x ∷ xs)
      → Chain m p (x ∷ xs) n
      → Chain (set_next m (last x xs) v) p (x ∷ xs) v
  Chain-set_next-last v p x [] n d (k, e, g, c) = (k, ground arith, ground arith, tt)
  Chain-set_next-last v p x (y ∷ ys) n (f, d) (k, e, g, c) =
      let h : x ≢ last y ys = Fresh-last y ys f in
      (k, ground arith, ground arith, Chain-set_next-last v x y ys n d c)

  -- The first entry of a chain is pointed back at another entry.
  pub Chain-set_previous-first :
      (v : ℕ) (p x : ℕ) (xs : List ℕ) (n : ℕ)
      → Distinct (x ∷ xs)
      → Chain m p (x ∷ xs) n
      → Chain (set_previous m x v) v (x ∷ xs) n
  Chain-set_previous-first v p x xs n (f, d) (k, e, g, c) =
      (k, ground arith, ground arith, Chain-set_previous x v x xs n f c)

  pub Chain-last : (p x : ℕ) (xs : List ℕ) (n : ℕ) → Chain m p (x ∷ xs) n → last x xs ≢ 0
  Chain-last p x [] n (k, e, g, c) = k
  Chain-last p x (y ∷ ys) n (k, e, g, c) = Chain-last x y ys n c

-- An entry that is hung on `t`.
pub put_after :
    (m : Store) (a t : ℕ)
    → a ≢ t
    → (m a).next ≡ 0
    → ((set_previous (set_next m t a) a t a).previous ≡ t)
      × ((set_previous (set_next m t a) a t a).next ≡ 0)
put_after m a t h n = ground arith
