-- ===== src/Spinlock/Race.antt =====
-- `Spinlock` with the rounds of `release` interleaved: the loop takes the lock from its next holder.
use nite_os_project.Common.{ℕ, ◌≡◌, ◌≢◌, arith, true}
use nite_os_project.Spinlock.{
  acquiring, critical, releasing, State, acquire_round, release_round, try_acquire, try_release,
  Steps, here, next,
}

-- Whenever the holder of the lock is in the loop of `release` while two other threads are in that
-- of `acquire`, the steps may go on so that both of those are critical at once.
pub release_race :
    (s : State) (i j k : ℕ)
    → i ≢ j
    → i ≢ k
    → j ≢ k
    → s.lock ≡ true
    → s.place i ≡ releasing
    → s.place j ≡ acquiring
    → s.place k ≡ acquiring
    → (t : State) × Steps s t × (t.place j ≡ critical) × (t.place k ≡ critical)
unfolding acquire_round release_round
release_race s i j k ij ik jk locked pi pj pk =
    let s1 = release_round s i in
    let s2 = acquire_round s1 j in
    let s3 = release_round s2 i in
    let s4 = acquire_round s3 k in
    (
      s4,
      next
          (next (next (next here (try_release s i pi)) (try_acquire s1 j (ground arith)))
            (try_release s2 i (ground arith)))
          (try_acquire s3 k (ground arith)),
      ground arith,
      ground arith,
    )
