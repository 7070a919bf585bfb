-- ===== src/Paging/Map/Tables.antt =====
-- Writes to the tables of an address space, and the entries that they leave.
use nite_os_project.Common.{
  update-miss, ℕ, ◌/◌, ◌^◌, ◌<◌, ◌≡◌, ◌≢◌, ◌⊎◌, update, inl, inr, sym, ap, ◌∙◌, arith, Option-cases,
  ◌>>=◌, Option, none, some,
}
use nite_os_project.Common.Bits.{bit_and_ones}
use nite_os_project.Paging.Map.{X64Pages, dir_index, table_index, page_index}

-- The entry of a page by its index.
abbrev pub entry_at : X64Pages → ℕ → Option ℕ
entry_at s index =
    s.page_tables (dir_index index) (table_index index) >>= λ table. some (table (page_index index))

-- The tables of `s` stay.
abbrev pub Keeps : X64Pages → X64Pages → Type 0
Keeps s t =
    (i j : ℕ) (table : ℕ → ℕ) → s.page_tables i j ≡ some table → t.page_tables i j ≡ some table

pub places : (p q i j : ℕ) → ((p ≡ i) × (q ≡ j)) ⊎ ((p ≢ i) ⊎ (q ≢ j))
places p q i j = ground arith

pub some_table : {A : Type 0} {a : A} {o : Option A} → o ≡ none → o ≡ some a → ⊥
some_table e h = absurd (ground (arith, e, h))

-- Two pages with one table differ in their places in it.
page_index-ne :
    (m n : ℕ)
    → m < 2 ^ 27
    → n < 2 ^ 27
    → m ≢ n
    → dir_index m ≡ dir_index n
    → table_index m ≡ table_index n
    → page_index m ≢ page_index n
page_index-ne m n bm bn ne d t p = ne (
    omega (
      arith,
      bit_and_ones 9 (m / 2 ^ 18),
      bit_and_ones 9 (n / 2 ^ 18),
      bit_and_ones 9 (m / 2 ^ 9),
      bit_and_ones 9 (n / 2 ^ 9),
      bit_and_ones 9 m,
      bit_and_ones 9 n,
    ))

-- What is written to the table of one page leaves the entries of the others.
pub kept_entry :
    (s s2 t : X64Pages) (index : ℕ) (table : ℕ → ℕ) (v : ℕ)
    → index < 2 ^ 27
    → Keeps s s2
    → s2.page_tables (dir_index index) (table_index index) ≡ some table
    → t.page_tables (dir_index index) (table_index index) ≡ some (update table (page_index index) v)
    → ((p q : ℕ)
        → (p ≢ dir_index index) ⊎ (q ≢ table_index index)
        → t.page_tables p q ≡ s2.page_tables p q)
    → (other word : ℕ) → other ≢ index
    → other < 2 ^ 27
    → entry_at s other ≡ some word
    → entry_at t other ≡ some word
kept_entry s s2 t index table v b keeps tab new same other word ne bo e =
    let p = dir_index other in
    let q = table_index other in
    elim (Option-cases (s.page_tables p q)) [
      | inl missing ↦
          absurd (some_table (ap (λ o. o >>= λ tb. some (tb (page_index other))) missing) e)
      | inr (tb, there) ↦
          let read : some (tb (page_index other)) ≡ some word =
            sym (ap (λ o. o >>= λ x. some (x (page_index other))) there) ∙ e in
          let kept = keeps p q tb there in
          elim (places p q (dir_index index) (table_index index)) [
            | inr apart ↦
                ap (λ o. o >>= λ x. some (x (page_index other))) (same p q apart ∙ kept) ∙ read
            | inl (i, j) ↦
                let place = page_index-ne other index bo b ne i j in
                let one : t.page_tables p q ≡ some (update table (page_index index) v) =
                  ap (λ (k : ℕ). t.page_tables k q) i
                  ∙ ap (t.page_tables (dir_index index)) j
                  ∙ new in
                let two : s2.page_tables p q ≡ some table =
                  ap (λ (k : ℕ). s2.page_tables k q) i
                  ∙ ap (s2.page_tables (dir_index index)) j
                  ∙ tab in
                ap (λ o. o >>= λ x. some (x (page_index other))) one
                ∙ ap some (update-miss table (page_index index) v (page_index other) place)
                ∙ ap (λ o. o >>= λ x. some (x (page_index other))) (sym two ∙ kept)
                ∙ read
          ]
    ]

-- Tables belong to directories.
abbrev pub HasDirs : X64Pages → Type 0
HasDirs s = (i j : ℕ) → s.page_dirs i ≡ none → s.page_tables i j ≡ none
