-- ===== src/Queue/Recovery.antt =====
-- `recover_stale_jobs` of src/queue/mod.rs: the loop ends, and what it has then done.
use agent_execution_platform.Prelude.{
  ℕ, zero, suc, ◌+◌, ◌<◌, ◌≡◌, ◌≢◌, refl, ap, none, some, List, [], ◌∷◌, ◌++◌, arith, length,
  length-append, append_assoc, Option-cases, inl, inr,
}
use agent_execution_platform.Prelude.Results.{ok}
use agent_execution_platform.Service.{IsHealthy, call_healthy}
use agent_execution_platform.Queue.{Redis, recover_loop, recover_stale_jobs}
use agent_execution_platform.Queue.Lists.{
  Store, main_queue, processing, lmove, redis_apply, put, pop_right,
}
use agent_execution_platform.Queue.Payloads.{Codec}
use agent_execution_platform.Queue.Counts.{pop_right-some}

-- All that stood in the processing list of `w` has come to the head of the main queue, in the same
-- order; nothing else has changed.
pub record Recovered {P : Type 0} (w : ℕ) (v v' : Store P) : Type 0 where
  pub main : v'.main_list ≡ v.processing_list w ++ v.main_list
  pub own : v'.processing_list w ≡ []
  pub others : (u : ℕ) → u ≢ w → v'.processing_list u ≡ v.processing_list u
  pub dead : v'.dead_letter_list ≡ v.dead_letter_list

module _ {P S : Type 0} (codec : Codec P) (conn : Redis codec S) (healthy : IsHealthy conn)
    (w : ℕ) where
  abbrev moved : S → S
  moved s = (conn.call (lmove (processing w) main_queue) s).1

  recover_loop_empty :
      (fuel n : ℕ) (s : S)
      → pop_right ((conn.view s).processing_list w) ≡ none
      → ((recover_loop codec conn (suc fuel) w n s).0 ≡ ok n)
        × (conn.view (recover_loop codec conn (suc fuel) w n s).1 ≡ conn.view s)
  unfolding recover_loop redis_apply
  recover_loop_empty fuel n s e =
      ground (arith, call_healthy conn healthy (lmove (processing w) main_queue) s)

  recover_loop_more :
      (fuel n : ℕ) (s : S) (x : P) (l : List P)
      → pop_right ((conn.view s).processing_list w) ≡ some (x, l)
      → (recover_loop codec conn (suc fuel) w n s
          ≡ recover_loop codec conn fuel w (n + 1) (moved s))
        × (conn.view (moved s)
            ≡ put main_queue (x ∷ (conn.view s).main_list) (put (processing w) l (conn.view s)))
  unfolding recover_loop redis_apply
  recover_loop_more fuel n s x l e =
      ground (arith, call_healthy conn healthy (lmove (processing w) main_queue) s)

  pop_right-none : (l : List P) → pop_right l ≡ none → l ≡ []
  pop_right-none [] h = refl
  pop_right-none (x ∷ xs) h = ground arith

  -- One more turn in front of a recovery that does the rest.
  Recovered-turn :
      (v u v' : Store P) (x : P) (l : List P)
      → pop_right (v.processing_list w) ≡ some (x, l)
      → u ≡ put main_queue (x ∷ v.main_list) (put (processing w) l v)
      → Recovered w u v'
      → Recovered w v v'
  Recovered-turn v u v' x l e step r =
      let split : v.processing_list w ≡ l ++ x ∷ [] = pop_right-some (v.processing_list w) x l e in
      let own_then : u.processing_list w ≡ l = ground arith in
      let main_then : u.main_list ≡ x ∷ v.main_list = ground arith in
      record {
        main = rw (split, r.main, own_then, main_then, append_assoc);
        own = r.own;
        others = λ k ne. ground (arith, r.others k ne);
        dead = ground arith;
      }

  shorter_by_one :
      (xs : List P) (x : P) (l : List P) → pop_right xs ≡ some (x, l) → length xs ≡ suc (length l)
  shorter_by_one xs x l e =
      omega (arith, ap length (pop_right-some xs x l e), length-append l (x ∷ []))

  recover_loop_lem :
      (fuel n : ℕ) (s : S)
      → length ((conn.view s).processing_list w) < fuel
      → ((recover_loop codec conn fuel w n s).0 ≡ ok (n + length ((conn.view s).processing_list w)))
        × Recovered w (conn.view s) (conn.view (recover_loop codec conn fuel w n s).1)
  recover_loop_lem zero n s h = elim h [ ]
  recover_loop_lem (suc fuel) n s h =
      elim (Option-cases (pop_right ((conn.view s).processing_list w))) [
        | inl e ↦
            let none_left = pop_right-none ((conn.view s).processing_list w) e in
            let (result, same) = recover_loop_empty fuel n s e in
            (
              rw (result, none_left) (ground arith),
              record {
                main = rw (same, none_left);
                own = rw (same, none_left);
                others = λ k ne. rw same;
                dead = rw same;
              },
            )
        | inr ((x, l), e) ↦
            let (turn, step) = recover_loop_more fuel n s x l e in
            let shorter = shorter_by_one ((conn.view s).processing_list w) x l e in
            let own_then : (conn.view (moved s)).processing_list w ≡ l = ground arith in
            let (result, rest) =
              recover_loop_lem fuel (n + 1) (moved s) (rw own_then (omega arith)) in
            (
              rw (turn, result, own_then) (ground arith),
              rw turn (Recovered-turn (conn.view s) (conn.view (moved s)) _ x l e step rest),
            )
      ]

  -- While Redis answers, a recovery with more turns than the processing list has entries ends, it
  -- reports how many jobs it moved, and exactly those have moved, in order, to the head of the main
  -- queue; other workers' lists and the dead letters are as they were.
  pub recover_stale_jobs_total :
      (fuel : ℕ) (s : S)
      → length ((conn.view s).processing_list w) < fuel
      → ((recover_stale_jobs codec conn fuel w s).0 ≡ ok (length ((conn.view s).processing_list w)))
        × Recovered w (conn.view s) (conn.view (recover_stale_jobs codec conn fuel w s).1)
  unfolding recover_stale_jobs
  recover_stale_jobs_total fuel s h =
      let (result, rest) = recover_loop_lem fuel 0 s h in (rw result (ground arith), rest)
