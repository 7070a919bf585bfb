-- ===== src/PageQueue.antt =====
-- The queues of free pages: `Page4KFifoQueue` of Kernel/inc/siberix/mem/page.h and `PageRecQueue`
-- of Kernel/inc/sbrx/memory/page_alloc.h, over the pages' links in memory.
pub mod Fifo
pub mod Reuse
mod Tests
use nite_os_project.Common.{ℕ, ◌==◌, if◌then◌else◌, ◌⊎◌, inl, inr}
use nite_os_project.Common.Words.{add32, sub32}
use nite_os_project.Links.{Entry, Store, set_next, set_previous}

pub record PageQueue : Type 0 where
  pub links : Store
  pub head : ℕ
  pub tail : ℕ
  pub size : ℕ

-- `Page4KFifoQueue()`
abbrev pub new_queue : Store → PageQueue
new_queue links = record { links = links; head = 0; tail = 0; size = 0 }

pub push : PageQueue → ℕ → PageQueue
push q page =
    if q.size == 0 then record q { head = page; tail = page; size = add32 q.size 1 } else record {
      links = set_previous (set_next q.links q.tail page) page q.tail;
      head = q.head;
      tail = page;
      size = add32 q.size 1;
    }

-- The second half of `pop`, once the head has moved on.
pop_head : PageQueue → PageQueue
pop_head q =
    if q.head == 0
    then record q { tail = 0; size = sub32 q.size 1 }
    else record q { links = set_previous q.links q.head 0; size = sub32 q.size 1 }

-- The page returned, 0 when there is none, and the queue left.
pub pop : PageQueue → ℕ × PageQueue
unfolding pop_head
pop q =
    if q.size == 0 then (0, q) else (q.head, pop_head (record q { head = (q.links q.head).next }))

-- The first `if` of `takeAway`, which points the page before at the page after.
unlink_before : PageQueue → ℕ → PageQueue
unlink_before q page =
    if (q.links page).previous == 0
    then record q { head = (q.links page).next }
    else record q { links = set_next q.links (q.links page).previous (q.links page).next }

-- The second `if`.
unlink_after : PageQueue → ℕ → PageQueue
unlink_after q page =
    if (q.links page).next == 0
    then record q { tail = (q.links page).previous }
    else record q { links = set_previous q.links (q.links page).next (q.links page).previous }

pub take_away : PageQueue → ℕ → PageQueue
take_away q page =
    let unlinked = unlink_after (unlink_before q page) page in
    record unlinked { size = sub32 unlinked.size 1 }

pub data PageErr : Type 0 where
  out_of_memory invalid_page_size invalid_address page_not_found page_not_free : PageErr

-- `PageRecQueue::take`, which refuses the null pointer.
pub take : PageQueue → ℕ → PageErr ⊎ ℕ × PageQueue
take q page = if page == 0 then inl page_not_found else inr (page, take_away q page)
