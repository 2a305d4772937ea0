-- ===== src/Backlog/Rest.antt =====
-- The threads of the server come to rest: the loop over a worker's queue (`thread_main` in
-- server/src/room/RoomWorker.cpp), and the workers and the database thread (server/src/db/DBWorker.cpp)
-- in any order.
use cpp_epoll_chat.Base.{
  ℕ, zero, suc, ◌+◌, ◌≤◌, ◌<◌, ◌≡◌, ◌⊎◌, refl, sym, ap, subst, length, List, [], ◌∷◌, Option, none,
  some, arith, Option-cases, inl, inr,
}
use cpp_epoll_chat.Backlog.{jobs_work, result_work, backlog}
use cpp_epoll_chat.Backlog.Rounds.{run_worker_less}
use cpp_epoll_chat.Backlog.Answered.{take_job_less}
use cpp_epoll_chat.Db.{Libpq, take_job}
use cpp_epoll_chat.Db.Thread.{run_jobs}
use cpp_epoll_chat.RoomEvent.{RoomEvent}
use cpp_epoll_chat.RoomWorker.Process.{run_worker, queue_of, drain_queue}
use cpp_epoll_chat.World.{World, RoomWorker, DbJob}

list_cases : {A : Type 0} (xs : List A) → (xs ≡ []) ⊎ ((x : A) × (rest : List A) × (xs ≡ x ∷ rest))
list_cases [] = inl refl
list_cases (x ∷ rest) = inr (x, rest, refl)

-- The loop over the queue of worker `k` ends with the queue empty: no event, and none that it sends on,
-- comes back for ever. As many rounds are enough as the backlog of all threads counts.
pub drain_queue_ends :
    (fuel k : ℕ) (w : World) → backlog w ≤ fuel → queue_of k (drain_queue fuel k w) ≡ []
unfolding drain_queue
drain_queue_ends zero k w enough = elim (list_cases (queue_of k w)) [
  | inl q ↦ q
  | inr (e, rest, q) ↦ absurd (omega (arith, run_worker_less k e rest w q))
]
drain_queue_ends (suc fuel) k w enough = elim (list_cases (queue_of k w)) [
  | inl q ↦ rw (q, drain_queue) q
  | inr (e, rest, q) ↦
      rw (q, drain_queue)
        (drain_queue_ends fuel k (run_worker k w) (omega (arith, run_worker_less k e rest w q)))
]

abbrev Answered : Option World → Type 0
Answered answer = (w : World) × (answer ≡ some w)

-- The jobs that are left, if there is an answer.
abbrev pub Empties : Option World → Type 0
Empties none = Unit {0}
Empties (some w) = w.job_queue ≡ []

module _ (pq : Libpq) (account_serialize : Option (pq.Res) → List ℕ) where
  -- A worker takes the event at the front of its queue, or the database thread its next job.
  pub data Work : World → World → Type 0 where
    works :
        (k : ℕ) (e : RoomEvent) (rest : List RoomEvent) (w : World)
        → queue_of k w ≡ e ∷ rest
        → Work w (run_worker k w)
    answers :
        (conn : pq.Conn) (first : ℕ) (draws : List ℕ) (job : DbJob) (rest : List DbJob)
        (w w' : World)
        → w.job_queue ≡ job ∷ rest
        → (take_job pq account_serialize conn first draws w).0 ≡ some w'
        → Work w w'

  -- So many of these, one after the other.
  pub data Works : ℕ → World → World → Type 0 where
    here : (w : World) → Works 0 w w
    after : {n : ℕ} {w v u : World} → Work w v → Works n v u → Works (suc n) w u

  Work_less : {w v : World} → Work w v → backlog v < backlog w
  Work_less (works k e rest w q) = run_worker_less k e rest w q
  Work_less (answers conn first draws job rest w w' q a) =
      take_job_less pq account_serialize conn first draws job rest w w' q a

  -- Without new input the threads stop.
  pub Works-ends : {n : ℕ} {w u : World} → Works n w u → n + backlog u ≤ backlog w
  Works-ends (here w) = omega arith
  Works-ends (after {n = n} {w = w} {v = v} {u = u} step steps) =
      omega (arith, Work_less step, Works-ends steps)

  -- Where every queue is empty, there is nothing to take.
  pub at_rest :
      {u : World} → ((k : ℕ) → queue_of k u ≡ []) → u.job_queue ≡ [] → (v : World) → ¬ Work u v
  at_rest empty no_jobs v (works k e rest w q) = let none' = empty k in cc
  at_rest empty no_jobs v (answers conn first draws job rest w w' q a) = cc

  pub run_jobs-Empties :
      (conn : pq.Conn) (rounds : List (ℕ × List ℕ)) (w : World)
      → backlog w ≤ length rounds
      → Empties (run_jobs pq account_serialize conn rounds w).0
  unfolding run_jobs
  run_jobs-Empties conn [] w enough = elim (list_cases (w.job_queue)) [
    | inl q ↦ q
    | inr (job, jobs, q) ↦
        let waits : jobs_work w.job_queue ≡ (1 + result_work job.on_result) + jobs_work jobs =
          ap jobs_work q in
        absurd (omega arith)
  ]
  run_jobs-Empties conn ((first, draws) ∷ rounds) w enough =
      let r = take_job pq account_serialize conn first draws w in
      let next : Option World → Option World × pq.Conn = λ answer. elim answer [
        | none ↦ (none, r.1)
        | some w' ↦ run_jobs pq account_serialize r.1 rounds w'
      ] in
      let round : List DbJob → Option World × pq.Conn =
        λ jobs. elim jobs [ [] ↦ (some w, conn) | _ ∷ _ ↦ next r.0 ] in
      elim (list_cases (w.job_queue)) [
        | inl q ↦ subst (λ jobs. Empties (round jobs).0) (sym q) q
        | inr (job, jobs, q) ↦
            subst (λ jobs. Empties (round jobs).0) (sym q)
              (elim (Option-cases r.0) [
                | inl ran_out ↦ subst (λ answer. Empties (next answer).0) (sym ran_out) tt
                | inr (w', answered) ↦
                    let less =
                      take_job_less pq account_serialize conn first draws job jobs w w' q
                        answered in
                    subst (λ answer. Empties (next answer).0) (sym answered)
                      (run_jobs-Empties r.1 rounds w' (omega arith))
              ])
      ]

  -- The loop over the queue of jobs ends with the queue empty, if each callback is given draws enough and
  -- there are as many rounds as the backlog of all threads counts.
  pub run_jobs_ends :
      (conn : pq.Conn) (rounds : List (ℕ × List ℕ)) (w w' : World)
      → backlog w ≤ length rounds
      → (run_jobs pq account_serialize conn rounds w).0 ≡ some w'
      → w'.job_queue ≡ []
  run_jobs_ends conn rounds w w' enough e = subst Empties e (run_jobs-Empties conn rounds w enough)
