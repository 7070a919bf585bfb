-- ===== src/PageQueue/Tests.antt =====
-- Runs of a queue of the pages at 64, 128 and 192, and the theorems on it.
use nite_os_project.Common.{◌≡◌, refl, arith, [], ◌∷◌, ◌++◌}
use nite_os_project.Links.{empty_entry}
use nite_os_project.Links.Ends.{Ends-empty}
use nite_os_project.PageQueue.{
  PageQueue, new_queue, push, pop, take_away, unlink_before, unlink_after,
}
use nite_os_project.PageQueue.Fifo.{Holds, push-Holds, pop-Holds, take_away-Holds}

abbrev none_queued : PageQueue
none_queued = new_queue (λ a. empty_entry)

abbrev one_queued : PageQueue
one_queued = push none_queued 64

abbrev two_queued : PageQueue
two_queued = push one_queued 128

abbrev three_queued : PageQueue
three_queued = push two_queued 192

none_held : Holds none_queued []
none_held = record { ends = Ends-empty (λ a. empty_entry); size_eq = refl; bound = omega arith }

one_held : Holds one_queued (64 ∷ [])
one_held = push-Holds none_queued [] 64 none_held (omega arith) tt refl refl (omega arith)

two_held : Holds two_queued (64 ∷ 128 ∷ [])
unfolding push
two_held =
    push-Holds one_queued (64 ∷ []) 128 one_held (omega arith) (omega arith, tt) refl refl
      (omega arith)

three_held : Holds three_queued ((64 ∷ 128 ∷ []) ++ 192 ∷ [])
unfolding push
three_held =
    push-Holds two_queued (64 ∷ 128 ∷ []) 192 two_held (omega arith)
      (omega arith, (omega arith, tt)) refl refl (omega arith)

pop-Holds_example : ((pop two_queued).0 ≡ 64) × Holds (pop two_queued).1 (128 ∷ [])
pop-Holds_example = pop-Holds two_queued (64 ∷ 128 ∷ []) two_held

take_away-Holds_example : Holds (take_away three_queued 128) ((64 ∷ []) ++ 192 ∷ [])
take_away-Holds_example = take_away-Holds three_queued (64 ∷ []) (192 ∷ []) 128 three_held

-- The page taken away keeps its own links.
taken_links : ((take_away three_queued 128).links 128).next ≡ 192
unfolding push take_away unlink_before unlink_after
taken_links = refl
