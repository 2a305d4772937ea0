-- ===== src/Db/Thread.antt =====
-- The inner loop of the database thread (`thread_main` in server/src/db/DBWorker.cpp), and `stop`, which
-- waits for that thread.
use cpp_epoll_chat.Base.{ℕ, List, [], ◌∷◌, Option, none, some}
use cpp_epoll_chat.Db.{Libpq, take_job, drain, then_drain}
use cpp_epoll_chat.World.{World}

-- Where the thread is as `stop` clears `running_`: at the test of the outer loop, or behind it, waiting or
-- in the inner loop.
pub data Standing : Type 0 where
  at_test behind_test : Standing

abbrev pub until_empty : Option World → Option World
until_empty none = none
until_empty (some w) = elim w.job_queue [ [] ↦ some w | _ ∷ _ ↦ none ]

module _ (pq : Libpq) (account_serialize : Option (pq.Res) → List ℕ) where
  -- The jobs at the front of the queue, while no other thread runs. For each round there are the draws
  -- that its callback may take; `none`: they ran out.
  unfoldable pub run_jobs : pq.Conn → List (ℕ × List ℕ) → World → Option World × pq.Conn
  unfolding take_job
  run_jobs conn [] w = (some w, conn)
  run_jobs conn ((first, draws) ∷ rest) w = elim w.job_queue [
    | [] ↦ (some w, conn)
    | _ ∷ _ ↦
        let (answer, conn') = take_job pq account_serialize conn first draws w in
        elim answer [ none ↦ (none, conn') | some w' ↦ run_jobs conn' rest w' ]
  ]

  -- What the thread does before it ends: from the test of the outer loop nothing more, and from behind it
  -- the jobs that wait, to the last. No other thread runs. `none`: the rounds or the draws ran out.
  unfoldable pub join : Standing → pq.Conn → List (ℕ × List ℕ) → World → Option World
  join at_test conn rounds w = some w
  join behind_test conn rounds w = until_empty (run_jobs conn rounds w).0

  -- `stop`, with what the thread is given, and the draws for the callbacks of the jobs that are left.
  unfoldable pub stop : Standing → pq.Conn → List (ℕ × List ℕ) → ℕ → List ℕ → World → Option World
  unfolding join drain
  stop standing conn rounds first draws w =
      then_drain (λ (v : World). drain v.job_queue first draws v) (join standing conn rounds w)
