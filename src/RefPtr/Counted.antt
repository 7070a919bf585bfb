-- ===== src/RefPtr/Counted.antt =====
-- Counters stay the numbers of references to them over a release and a further reference.
use nite_os_project.Common.{
  ℕ, zero, suc, ◌+◌, ◌^◌, ◌<◌, ◌≡◌, ◌≢◌, refl, sym, ap, ◌∙◌, arith, true, ◌==◌, Bool-cases, List,
  ◌∷◌, ◌++◌, length, inl, inr,
}
use nite_os_project.Common.Words.{add32}
use nite_os_project.RefPtr.{RefPtr, Heap, write, retain, release}
use nite_os_project.RefPtr.Uses.{
  uses, elem, IsCounted, uses-middle, uses-le, release-null, release-last, release-more, uses-same,
  uses-other,
}

-- A counter that is written the number of its uses.
pub write-uses :
    (count : ℕ → ℕ) (rs : List RefPtr) (d n c : ℕ)
    → n ≡ uses d rs
    → (d ≢ c → count c ≡ uses c rs)
    → write count d n c ≡ uses c rs
write-uses count rs d n c e others = elim (Bool-cases (c == d)) [
  | inl hit ↦ let here : d ≡ c = ground arith in rw hit (e ∙ ap (λ (k : ℕ). uses k rs) here)
  | inr miss ↦ rw miss (others (ground arith))
]

module _ (h : Heap) (xs ys : List RefPtr) (r : RefPtr) (i : IsCounted h (xs ++ r ∷ ys)) where
  gone-fewer : (c : ℕ) → c ≢ 0 → elem c h.counters ≡ true → uses c (xs ++ ys) ≡ 0
  gone-fewer c nz e = let n = i.gone c nz e in omega (arith, uses-middle c xs ys r)

  release_used :
      (n : ℕ)
      → length (xs ++ r ∷ ys) < 2 ^ 32
      → r.ref_count ≢ 0
      → h.count r.ref_count ≡ suc n
      → uses r.ref_count (xs ++ ys) ≡ n
      → IsCounted (release h r) (xs ++ ys)
  release_used zero b z all e = rw (release-last h r z all) (record {
    counts = λ c nz.
        write-uses h.count (xs ++ ys) r.ref_count 0 c (sym e)
          (λ ne. i.counts c nz ∙ uses-other c xs ys r ne);
    gone = λ c nz in_it. elim (Bool-cases (c == r.ref_count)) [
      | inl hit ↦ (let here : c ≡ r.ref_count = ground arith in rw here e)
      | inr miss ↦ (let there : elem c h.counters ≡ true = ground arith in gone-fewer c nz there)
    ];
    once = (
      elim (Bool-cases (elem r.ref_count h.counters)) [
        | inl deleted ↦
            (let none_left = i.gone r.ref_count z deleted in
              absurd (omega (arith, none_left, uses-same xs ys r)))
        | inr fresh ↦ fresh
      ],
      i.once,
    );
  })
  release_used (suc n) b z all e =
      let few = uses-le r.ref_count (xs ++ r ∷ ys) in
      let used = uses-same xs ys r in
      rw (release-more h r n z all (omega arith)) (record {
        counts = λ c nz.
            write-uses h.count (xs ++ ys) r.ref_count (suc n) c (sym e)
              (λ ne. i.counts c nz ∙ uses-other c xs ys r ne);
        gone = gone-fewer;
        once = i.once;
      })

  pub release-IsCounted : length (xs ++ r ∷ ys) < 2 ^ 32 → IsCounted (release h r) (xs ++ ys)
  release-IsCounted b = elim (Bool-cases (r.ref_count == 0)) [
    | inl null ↦
        let z : r.ref_count ≡ 0 = ground arith in
        rw (release-null h r z) (record {
          counts = λ c nz. i.counts c nz ∙ uses-other c xs ys r (omega arith);
          gone = gone-fewer;
          once = i.once;
        })
    | inr counted ↦
        let z : r.ref_count ≢ 0 = ground arith in
        let all = i.counts r.ref_count z ∙ uses-same xs ys r in
        release_used (uses r.ref_count (xs ++ ys)) b z all refl
  ]

pub retain-null : (h : Heap) (r : RefPtr) → r.ref_count ≡ 0 → retain h r ≡ h
unfolding retain
retain-null h r z = ground arith

pub retain-counted :
    (h : Heap) (r : RefPtr) (n : ℕ)
    → r.ref_count ≢ 0
    → h.count r.ref_count ≡ n
    → suc n < 2 ^ 32
    → retain h r ≡ record h { count = write h.count r.ref_count (suc n) }
unfolding retain
retain-counted h r n z e b =
    let more : add32 n 1 ≡ suc n = omega arith in rw (e, more) (ground arith)

-- A further reference `r` to the counter of a reference `o` that is alive, at any place.
pub retain-IsCounted :
    (h : Heap) (us vs xs ys : List RefPtr) (o r : RefPtr)
    → length (us ++ o ∷ vs) + 1 < 2 ^ 32
    → IsCounted h (us ++ o ∷ vs)
    → xs ++ ys ≡ us ++ o ∷ vs
    → o.ref_count ≡ r.ref_count
    → IsCounted (retain h o) (xs ++ r ∷ ys)
retain-IsCounted h us vs xs ys o r b i e same =
    let kept : (c : ℕ) → r.ref_count ≢ c → uses c (xs ++ r ∷ ys) ≡ uses c (us ++ o ∷ vs) =
      λ c ne. uses-other c xs ys r ne ∙ ap (uses c) e in
    elim (Bool-cases (o.ref_count == 0)) [
      | inl null ↦
          let z : o.ref_count ≡ 0 = ground arith in
          rw (retain-null h o z) (record {
            counts = λ c nz. i.counts c nz ∙ sym (kept c (omega arith));
            gone = λ c nz deleted. kept c (omega arith) ∙ i.gone c nz deleted;
            once = i.once;
          })
      | inr counted ↦
          let z : o.ref_count ≢ 0 = ground arith in
          let n = i.counts o.ref_count z in
          let few = uses-le o.ref_count (us ++ o ∷ vs) in
          let more : suc (uses o.ref_count (us ++ o ∷ vs)) ≡ uses o.ref_count (xs ++ r ∷ ys) =
            ap (λ k. suc (uses k (us ++ o ∷ vs))) same
            ∙ ap suc (ap (uses r.ref_count) (sym e))
            ∙ sym (uses-same xs ys r)
            ∙ ap (λ k. uses k (xs ++ r ∷ ys)) (sym same) in
          rw (retain-counted h o (uses o.ref_count (us ++ o ∷ vs)) z n (omega arith)) (record {
            counts = λ c nz.
                write-uses h.count (xs ++ r ∷ ys) o.ref_count
                  (suc (uses o.ref_count (us ++ o ∷ vs))) c more
                  (λ ne. i.counts c nz ∙ sym (kept c (omega arith)));
            gone = λ c nz deleted.
                (let old = i.gone c nz deleted in
                  elim (Bool-cases (c == o.ref_count)) [
                    | inl hit ↦
                        let here : o.ref_count ≡ c = ground arith in
                        let used = uses-same us vs o in
                        absurd (omega (arith, old, used, ap (λ k. uses k (us ++ o ∷ vs)) here))
                    | inr miss ↦ (let other : r.ref_count ≢ c = ground arith in kept c other ∙ old)
                  ]);
            once = i.once;
          })
    ]
