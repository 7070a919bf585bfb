-- ===== src/Ahci/Wait.antt =====
-- How `access` waits for the disk: until it is ready, at most a million times, and then for the end of
-- the command.
use nite_os_project.Common.{
  ℕ, zero, suc, ◌+◌, ◌^◌, ◌<◌, ◌≤◌, ◌≡◌, ◌⊎◌, inl, inr, refl, sym, ap, ◌∙◌, subst, arith, bit_and,
  Bool, true, false, not, ◌==◌, Bool-cases, none, some, ltb, List, [], ◌∷◌, ◌↔◌,
}
use nite_os_project.Ahci.{
  Port, is_busy, has_error, spin_loop, wait_loop, spin_limit, issue, access, access_slot, prepare,
  find_slot, Sent, sent_ie, sent_is, sent_serr, sent_tfd, sent_ci,
}

module _ (port : Port) (slot : ℕ) where
  -- The disk is busy at the reads from `i` to `k`, and ready at that of `k`.
  abbrev pub Ready : ℕ → ℕ → Type 0
  Ready i k =
      (i ≤ k)
      × (is_busy (port.tfd k) ≡ false)
      × ((j : ℕ) → i ≤ j → j < k → is_busy (port.tfd j) ≡ true)

  spin_loop-Ready : (n i k : ℕ) → Ready i k → k < i + n → spin_loop port n i ≡ k
  unfolding spin_loop
  spin_loop-Ready zero i k (le, now, before) b = absurd (omega arith)
  spin_loop-Ready (suc n) i k (le, now, before) b = elim (Bool-cases (i == k)) [
    | inl here ↦
        let e : i ≡ k = ground arith in
        let ready : is_busy (port.tfd i) ≡ false = ap (λ (m : ℕ). is_busy (port.tfd m)) e ∙ now in
        rw ready e
    | inr later ↦
        let busy = before i (omega arith) (ground arith) in
        rw busy (
          spin_loop-Ready n (suc i) k (ground arith, now, λ j p q. before j (omega arith) q)
            (omega arith))
  ]

  spin_loop-busy :
      (n i : ℕ)
      → ((j : ℕ) → i ≤ j → j < i + n → is_busy (port.tfd j) ≡ true)
      → spin_loop port n i ≡ i + n
  unfolding spin_loop
  spin_loop-busy zero i busy = omega arith
  spin_loop-busy (suc n) i busy =
      rw (busy i (omega arith) (omega arith))
        (spin_loop-busy n (suc i) (λ j p q. busy j (omega arith) (omega arith)) ∙ omega arith)

  -- Whether the command's bit is gone at a round.
  abbrev pub is_done : ℕ → Bool
  is_done k = bit_and (port.ci k) (2 ^ slot) == 0

  -- The command ends in the round `k`: it is still running before without an error, and then it is
  -- done, or has an error.
  abbrev pub Ends : ℕ → ℕ → Bool → Type 0
  Ends i k result =
      (i ≤ k)
      × ((j : ℕ) → i ≤ j → j < k → (is_done j ≡ false) × (has_error (port.status j) ≡ false))
      × ((is_done k ≡ true) × (result ≡ not (has_error (port.status k)))
          ⊎ (is_done k ≡ false) × (has_error (port.status k) ≡ true) × (result ≡ false))

  wait_loop-last :
      (fuel k : ℕ) (result : Bool)
      → ((is_done k ≡ true) × (result ≡ not (has_error (port.status k)))
          ⊎ (is_done k ≡ false) × (has_error (port.status k) ≡ true) × (result ≡ false))
      → wait_loop port slot (suc fuel) k ≡ some result
  unfolding wait_loop
  wait_loop-last fuel k result (inl (done, e)) = rw done (ap some (sym e))
  wait_loop-last fuel k result (inr (running, error, e)) = rw (running, error) (ap some (sym e))

  wait_loop-more :
      (fuel i : ℕ)
      → is_done i ≡ false
      → has_error (port.status i) ≡ false
      → wait_loop port slot (suc fuel) i ≡ wait_loop port slot fuel (suc i)
  unfolding wait_loop
  wait_loop-more fuel i running fine = rw (running, fine) refl

  wait_loop-Ends :
      (fuel i k : ℕ) (result : Bool)
      → Ends i k result
      → k < i + fuel
      → wait_loop port slot fuel i ≡ some result
  wait_loop-Ends zero i k result (le, before, last) b = absurd (omega arith)
  wait_loop-Ends (suc fuel) i k result (le, before, last) b = elim (Bool-cases (i == k)) [
    | inl here ↦
        let e : k ≡ i = ground arith in
        subst (λ (m : ℕ). wait_loop port slot (suc fuel) m ≡ some result) e
          (wait_loop-last fuel k result last)
    | inr later ↦
        let (running, fine) = before i (omega arith) (ground arith) in
        wait_loop-more fuel i running fine
        ∙ wait_loop-Ends fuel (suc i) k result
            (ground arith, (λ j p q. before j (omega arith) q), last) (omega arith)
  ]

  -- A round of the second loop that ends it.
  abbrev pub Stops : ℕ → Type 0
  Stops k = (is_done k ≡ true) ⊎ (has_error (port.status k) ≡ true)

  Ends-next :
      (i k : ℕ) (result : Bool)
      → is_done i ≡ false
      → has_error (port.status i) ≡ false
      → Ends (suc i) k result
      → Ends i k result
  Ends-next i k result running fine (le, before, last) = (
    omega arith,
    (λ j p q. elim (Bool-cases (j == i)) [
      | inl e ↦
          let same : i ≡ j = ground arith in
          subst (λ (q : ℕ). (is_done q ≡ false) × (has_error (port.status q) ≡ false)) same
            (running, fine)
      | inr later ↦ before j (ground arith) q
    ]),
    last,
  )

  -- A round that ends the loop is the first one, or more follow.
  Ends-here :
      (i : ℕ)
      → ((result : Bool) × Ends i i result)
        ⊎ ((is_done i ≡ false) × (has_error (port.status i) ≡ false))
  Ends-here i = elim (Bool-cases (is_done i)) [
    | inl done ↦ inl (
      not (has_error (port.status i)),
      (omega arith, (λ j p q. absurd (omega arith)), inl (done, refl)),
    )
    | inr running ↦ elim (Bool-cases (has_error (port.status i))) [
      | inl error ↦
          inl (false, (omega arith, (λ j p q. absurd (omega arith)), inr (running, error, refl)))
      | inr fine ↦ inr (running, fine)
    ]
  ]

  -- The first such round, where there is one.
  first-Ends :
      (n i m : ℕ) → m ≡ i + n → Stops m → (k : ℕ) × (result : Bool) × (k ≤ m) × Ends i k result
  first-Ends zero i m at stop = elim (Ends-here i) [
    | inl (result, ends) ↦ (i, result, omega arith, ends)
    | inr (running, fine) ↦
        let here : m ≡ i = omega arith in
        absurd (elim (subst Stops here stop) [
          | inl done ↦ ground (arith, done, running)
          | inr error ↦ ground (arith, error, fine)
        ])
  ]
  first-Ends (suc n) i m at stop = elim (Ends-here i) [
    | inl (result, ends) ↦ (i, result, omega arith, ends)
    | inr (running, fine) ↦
        let (k, result, below, ends) = first-Ends n (suc i) m (omega arith) stop in
        (k, result, below, Ends-next i k result running fine ends)
  ]

  -- The disk is ready at one of the reads that the code makes.
  abbrev pub IsReady : Type 0
  IsReady = (k : ℕ) × (k < spin_limit) × (is_busy (port.tfd k) ≡ false)

  -- The command is done without an error in a round, and neither was it before that.
  abbrev pub IsFinished : Type 0
  IsFinished =
      (k : ℕ) × (is_done k ≡ true)
      × (has_error (port.status k) ≡ false)
      × ((j : ℕ) → j < k → (is_done j ≡ false) × (has_error (port.status j) ≡ false))

  spin_loop-cases :
      (n i : ℕ)
      → ((k : ℕ) × Ready i k × (k < i + n))
        ⊎ ((j : ℕ) → i ≤ j → j < i + n → is_busy (port.tfd j) ≡ true)
  spin_loop-cases zero i = inr (λ j p q. absurd (omega arith))
  spin_loop-cases (suc n) i = elim (Bool-cases (is_busy (port.tfd i))) [
    | inr ready ↦ inl (i, (omega arith, ready, (λ j p q. absurd (omega arith))), omega arith)
    | inl busy ↦ elim (spin_loop-cases n (suc i)) [
      | inl (k, (le, now, before), b) ↦ inl (
        k,
        (
          omega arith,
          now,
          (λ j p q. elim (Bool-cases (j == i)) [
            | inl e ↦
                let same : i ≡ j = ground arith in
                subst (λ (q : ℕ). is_busy (port.tfd q) ≡ true) same busy
            | inr later ↦ before j (ground arith) q
          ]),
        ),
        omega arith,
      )
      | inr all ↦ inr (λ j p q. elim (Bool-cases (j == i)) [
        | inl e ↦
            let same : i ≡ j = ground arith in
            subst (λ (q : ℕ). is_busy (port.tfd q) ≡ true) same busy
        | inr later ↦ all j (ground arith) (omega arith)
      ])
    ]
  ]

  Ends-IsFinished : (k : ℕ) (result : Bool) → Ends 0 k result → (result ≡ true) ↔ IsFinished
  Ends-IsFinished k result (le, before, last) = (
    (λ yes. elim last [
      | inl (done, e) ↦
          let fine : not (has_error (port.status k)) ≡ true = sym e ∙ yes in
          (k, done, ground (arith, fine), (λ j q. before j (omega arith) q))
      | inr (running, error, e) ↦ absurd (ground (arith, yes, e))
    ]),
    (λ (m, done, fine, earlier). elim (Bool-cases (k == m)) [
      | inl e ↦
          let same : k ≡ m = ground arith in
          elim last [
            | inl (now, r) ↦
                let clean : has_error (port.status k) ≡ false =
                  ap (λ (q : ℕ). has_error (port.status q)) same ∙ fine in
                r ∙ ap not clean
            | inr (running, error, r) ↦ absurd (ground (arith, running, ap is_done same ∙ done))
          ]
      | inr differ ↦ elim (Bool-cases (ltb k m)) [
        | inl less ↦
            let (running, clean) = earlier k (ground arith) in
            elim last [
              | inl (now, r) ↦ absurd (ground (arith, now, running))
              | inr (busy, error, r) ↦ absurd (ground (arith, error, clean))
            ]
        | inr more ↦
            let (running, clean) = before m (omega arith) (ground arith) in
            absurd (ground (arith, running, done))
      ]
    ]),
  )

-- `access` with a free slot below 8, where the command's bit goes away or an error comes up in some
-- round below the fuel: it writes the structures of the command, clears the registers, and issues
-- the command if and only if the disk is ready at one of the first million reads; it returns true
-- if and only if the disk is ready then and the command is done without an error in the first
-- round in which it is done or there is one.
pub access-IsFinished :
    (port : Port) (fuel m sact ci slot lba count buf : ℕ) (write : Bool)
    → find_slot sact ci ≡ some slot
    → slot < 8
    → Stops port slot m
    → m < fuel
    → (sent : List Sent) × (result : Bool) × (access port fuel sact ci lba count buf write
        ≡ some (record {
          registers = sent_ie 0xFFFFFFFF ∷ sent_is 0 ∷ sent_serr 0 ∷ sent_tfd 0 ∷ sent;
          command = some (prepare lba count buf write slot);
          result = some result;
        }))
      × (IsReady port slot → sent ≡ sent_ci (2 ^ slot) ∷ [])
      × (¬ IsReady port slot → sent ≡ [])
      × ((result ≡ true) ↔ (IsReady port slot × IsFinished port slot))
unfolding access access_slot issue
access-IsFinished port fuel m sact ci slot lba count buf write free small stop enough =
    let inside : ltb slot 8 ≡ true = ground arith in
    elim (spin_loop-cases port slot spin_limit 0) [
      | inl (k, ready, b) ↦
          let (r, result, below, ends) = first-Ends port slot m 0 m (omega arith) stop in
          let spun : spin_loop port spin_limit 0 ≡ k =
            spin_loop-Ready port slot spin_limit 0 k ready b in
          let fewer : (k == spin_limit) ≡ false = ground arith in
          let waited = wait_loop-Ends port slot fuel 0 r result ends (omega arith) in
          let (at, now, before) = ready in
          let here : IsReady port slot = (k, omega arith, now) in
          let (to, from) = Ends-IsFinished port slot r result ends in
          (
            sent_ci (2 ^ slot) ∷ [],
            result,
            rw (free, inside, spun, fewer, waited) refl,
            (λ h. refl),
            (λ h. absurd (h here)),
            ((λ yes. (here, to yes)), (λ (h, f). from f)),
          )
      | inr busy ↦
          let never : ¬ IsReady port slot = λ (k, less, now).
            let full = busy k (omega arith) (omega arith) in ground (arith, full, now) in
          let spun : spin_loop port spin_limit 0 ≡ spin_limit =
            spin_loop-busy port slot spin_limit 0 busy ∙ omega arith in
          let all : (spin_limit == spin_limit) ≡ true = ground arith in
          (
            [],
            false,
            rw (free, inside, spun, all) refl,
            (λ h. absurd (never h)),
            (λ h. refl),
            ((λ yes. absurd (ground (arith, yes))), (λ (h, f). absurd (never h))),
          )
    ]

-- Without a free slot `access` returns false and writes no command; the slots from 8 on lie behind
-- the array of the command tables.
pub access-refused :
    (port : Port) (fuel sact ci lba count buf : ℕ) (write : Bool)
    → (find_slot sact ci ≡ none
        → access port fuel sact ci lba count buf write
          ≡ some (record {
            registers = sent_ie 0xFFFFFFFF ∷ sent_is 0 ∷ [];
            command = none;
            result = some false;
          }))
      × ((slot : ℕ)
          → find_slot sact ci ≡ some slot
          → 8 ≤ slot
          → access port fuel sact ci lba count buf write ≡ none)
unfolding access access_slot
access-refused port fuel sact ci lba count buf write = (
  (λ full. rw full refl),
  (λ slot free behind. let out : ltb slot 8 ≡ false = ground arith in rw (free, out) refl),
)
