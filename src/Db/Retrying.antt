-- ===== src/Db/Retrying.antt =====
-- How often a statement is sent (`DBConnection::exec` in server/src/db/DBConnection.cpp).
use cpp_epoll_chat.Base.{
  ℕ, ◌+◌, ◌≡◌, ◌∙◌, ap, List, map, not, ◌&&◌, if◌then◌else◌, arith, Bool-cases, inl, inr,
}
use cpp_epoll_chat.Db.{Libpq, Query, c_str, ok, exec_once, is_alive, reconnect, exec}

-- `sent` counts the statements that were sent on a connection: `PQexecParams` sends one, and `PQreset`
-- none.
module _ (pq : Libpq) (sent : pq.Conn → ℕ)
    (sends : (query : Query) (params : List (List ℕ)) (conn : pq.Conn)
      → sent (pq.exec_params query params conn).1 ≡ sent conn + 1)
    (resets : (conn : pq.Conn) → sent (pq.reset conn) ≡ sent conn) where
  -- A statement is sent once, and once more if it fails, the connection is found broken, and is there
  -- again after a reset. No more than that.
  pub sent-exec :
      (query : Query) (params : List (List ℕ)) (conn : pq.Conn)
      → let first = exec_once pq query params conn in
        let again =
          not (ok pq first.0) && (not (is_alive pq first.1) && (reconnect pq first.1).0) in
        sent (exec pq query params conn).1 ≡ sent conn + (if again then 2 else 1)
  unfolding exec exec_once reconnect
  sent-exec query params conn =
      let first = exec_once pq query params conn in
      let once = sends query (map c_str params) conn in
      let twice = sends query (map c_str params) (pq.reset first.1) in
      let reset' = resets first.1 in
      elim (Bool-cases (ok pq first.0)) [
        | inl q ↦ rw (q, exec) once
        | inr q ↦ elim (Bool-cases (is_alive pq first.1)) [
          | inl a ↦ rw (q, exec) (rw a once)
          | inr a ↦ elim (Bool-cases (pq.is_null first.1)) [
            | inl n ↦ rw (q, exec) (rw (a, n) once)
            | inr n ↦ elim (Bool-cases (pq.connected (pq.reset first.1))) [
              | inl c ↦
                  rw (q, exec)
                    (rw (a, n) (rw c (twice ∙ ap (λ x. x + 1) (reset' ∙ once) ∙ (omega arith))))
              | inr c ↦ rw (q, exec) (rw (a, n) (rw c (reset' ∙ once)))
            ]
          ]
        ]
      ]
