-- ===== src/Tcpserver/Shutdown.antt =====
-- The shutdown of `Serve`: what `beginShutdown` stops, and what `waitForConns` waits for.
use wbsv.Common.{
  ℕ, zero, suc, ◌-◌, ◌≤◌, ◌≡◌, refl, sym, ap, ◌∙◌, inl, inr, Bool, true, none, some, List, [], ◌∷◌,
  arith, ◌==◌, Bool-cases, length, ℤ,
}
use wbsv.Tcpserver.{
  close_active_conns, begin_shutdown, forget_conn, track_conn, wg_done, member, delete,
  wait_for_conns, Server,
}
use wbsv.Tcpserver.Steps.{after_track, new_system, Step, Reach, accept_conn, begin_untrack, System}
use wbsv.Tcpserver.Tracked.{Step-IsTracked, Reach-IsTracked, Reach-keeps, IsTracked}
use mathlib.Core.Path.{subst}

length-delete-≤ : (c : ℕ) (xs : List ℕ) → length (delete c xs) ≤ length xs
unfolding delete
length-delete-≤ c [] = omega arith
length-delete-≤ c (x ∷ xs) = ground (arith, length-delete-≤ c xs)

-- `b` is as far in the shutdown as `a`, or further.
pub record Drains (a b : System) : Type 0 where
  pub shuts : b.server.shutting ≡ true
  pub wg_le : b.server.wg ≤ a.server.wg
  pub active_le : length b.server.active_conns ≤ length a.server.active_conns

Drains-refl : (a : System) → a.server.shutting ≡ true → Drains a a
Drains-refl a h = record { shuts = h; wg_le = omega arith; active_le = omega arith }

wg_done-Drains :
    (a : System) (s : Server) (n : ℕ)
    → a.server.shutting ≡ true
    → wg_done a.server ≡ some s
    → Drains a (record a { server = s; leaving = n })
unfolding wg_done
wg_done-Drains a s n h d = elim (Bool-cases (a.server.wg == 0)) [
  | inl zero_left ↦ absurd (panics (rw zero_left at d))
  | inr more ↦
      let is : record a.server { wg = a.server.wg - 1 } ≡ s = ground (arith, rw more at d) in
      subst (λ x. Drains a (record a { server = x; leaving = n })) is
        (record { shuts = h; wg_le = omega arith; active_le = omega arith })
]
  where
    panics : none ≡ some s → ⊥
    panics e = ground arith

Step-Drains : {a b : System} → Step a b → a.server.shutting ≡ true → Drains a b
unfolding accept_conn after_track track_conn begin_untrack forget_conn begin_shutdown
    close_active_conns
Step-Drains {a} (Step.accepts p) h =
    rw h (record { shuts = refl; wg_le = omega arith; active_le = omega arith })
Step-Drains {a} Step.accept_fails h = record {
  shuts = h;
  wg_le = omega arith;
  active_le = omega arith;
}
Step-Drains {a} (Step.untracks conn p) h = record {
  shuts = h;
  wg_le = omega arith;
  active_le = length-delete-≤ conn a.server.active_conns;
}
Step-Drains {a} (Step.done s n l d) h = wg_done-Drains a s n h d
Step-Drains {a} Step.begins_shutdown h = record {
  shuts = refl;
  wg_le = omega arith;
  active_le = omega arith;
}
Step-Drains {a} Step.closes_active h = record {
  shuts = refl;
  wg_le = omega arith;
  active_le = omega arith;
}

-- Once the shutdown has begun, no step takes it back, and neither the counter of the wait group nor
-- the number of active connections grows again, whatever the listener still accepts.
pub Reach-Drains : {a b : System} → Reach a b → a.server.shutting ≡ true → Drains a b
Reach-Drains {a} Reach.here h = Drains-refl a h
Reach-Drains (Reach.before s r) h =
    let first = Step-Drains s h in
    let later = Reach-Drains r first.shuts in
    record {
      shuts = later.shuts;
      wg_le = omega (arith, first.wg_le, later.wg_le);
      active_le = omega (arith, first.active_le, later.active_le);
    }

-- No connection is tracked and no goroutine is between the halves of `untrackConn`.
pub record IsIdle (sys : System) : Type 0 where
  pub none_active : sys.server.active_conns ≡ []
  pub none_serving : sys.serving ≡ []
  pub none_leaving : sys.leaving ≡ 0

empty : (xs : List ℕ) → length xs ≡ 0 → xs ≡ []
empty [] h = refl
empty (x ∷ xs) h = ground arith

IsTracked-IsIdle : (max : ℤ) (sys : System) → IsTracked max sys → sys.server.wg ≡ 0 → IsIdle sys
IsTracked-IsIdle max sys t h =
    let gone : sys.server.active_conns ≡ [] =
      empty sys.server.active_conns (omega (arith, t.counted)) in
    record {
      none_active = gone;
      none_serving = t.served ∙ gone;
      none_leaving = omega (arith, t.counted);
    }

-- When the wait group of a server that is shutting down is at zero, which is what `waitForConns` waits
-- for, no connection is active and none will be: every state from then on is idle.
pub wait_for_conns_final :
    (max timeout : ℤ) (scheduled : Bool) (a b : System)
    → Reach (new_system max) a
    → a.server.shutting ≡ true
    → wait_for_conns timeout scheduled a.server [] ≡ true
    → Reach a b
    → IsIdle b
unfolding wait_for_conns
wait_for_conns_final max timeout scheduled a b r h w s =
    let at_zero : a.server.wg ≡ 0 = ground (arith, w) in
    let drains = Reach-Drains s h in
    IsTracked-IsIdle max b (Reach-keeps max s (Reach-IsTracked max a r))
      (omega (arith, drains.wg_le, at_zero))

head_member : (c : ℕ) (conns : List ℕ) → member c (c ∷ conns) ≡ true
head_member c conns = ground arith

length-delete_head : (c : ℕ) (conns : List ℕ) → length (delete c (c ∷ conns)) ≤ length conns
unfolding delete
length-delete_head c conns = ground (arith, length-delete-≤ c conns)

-- Only goroutines that serve or leave take steps: they begin `untrackConn`, or end it with `wg.Done`.
pub data Leaves : System → System → Type 0 where
  over : {sys : System} → Leaves sys sys
  untracks :
      {sys c : System} (conn : ℕ)
      → member conn sys.serving ≡ true
      → Leaves (begin_untrack sys conn) c
      → Leaves sys c
  done :
      {sys c : System} (s : Server) (n : ℕ)
      → sys.leaving ≡ suc n
      → wg_done sys.server ≡ some s
      → Leaves (record sys { server = s; leaving = n }) c
      → Leaves sys c

-- Nothing is left, and the counter of the wait group says so.
pub record IsAtRest (sys : System) : Type 0 where
  pub idle : IsIdle sys
  pub wg_zero : sys.server.wg ≡ 0

drain_leaving :
    (max : ℤ) (n : ℕ) (sys : System)
    → IsTracked max sys
    → sys.leaving ≡ n
    → sys.serving ≡ []
    → (b : System) × Leaves sys b × IsAtRest b
unfolding wg_done
drain_leaving max zero sys t h e =
    let gone : sys.server.active_conns ≡ [] = sym (t.served) ∙ e in
    (
      sys,
      Leaves.over,
      record {
        idle = record { none_active = gone; none_serving = e; none_leaving = h };
        wg_zero = omega (arith, t.counted, ap length gone);
      },
    )
drain_leaving max (suc n) sys t h e =
    let s = record sys.server { wg = sys.server.wg - 1 } in
    let possible : wg_done sys.server ≡ some s = ground (arith, t.counted) in
    let step : Step sys (record sys { server = s; leaving = n }) = Step.done s n h possible in
    let (b, r, i) =
      drain_leaving max n (record sys { server = s; leaving = n }) (Step-IsTracked max step t) refl
        e in
    (b, Leaves.done s n h possible r, i)

drain_serving :
    (max : ℤ) (n : ℕ) (sys : System)
    → IsTracked max sys
    → length sys.serving ≤ n
    → (conns : List ℕ) → sys.serving ≡ conns
    → (b : System) × Leaves sys b × IsAtRest b
unfolding begin_untrack
drain_serving max n sys t h [] e = drain_leaving max sys.leaving sys t refl e
drain_serving max zero sys t h (c ∷ conns) e = absurd (positive (rw e at h))
  where
    positive : length (c ∷ conns) ≤ 0 → ⊥
    positive p = omega arith
drain_serving max (suc n) sys t h (c ∷ conns) e =
    let there : member c sys.serving ≡ true = rw e (head_member c conns) in
    let step : Step sys (begin_untrack sys c) = Step.untracks c there in
    let shorter : length (delete c sys.serving) ≤ n =
      rw e (omega (arith, length-delete_head c conns, rw e at h)) in
    let (b, r, i) =
      drain_serving max n (begin_untrack sys c) (Step-IsTracked max step t) shorter
        (delete c sys.serving) refl in
    (b, Leaves.untracks c there r, i)

-- The server can always come to rest: from every state that it reaches, steps of the goroutines that
-- serve or leave, and no others, lead to a state without connections and with the counter of the wait
-- group at zero.
pub can_drain :
    (max : ℤ) (sys : System) → Reach (new_system max) sys → (b : System) × Leaves sys b × IsAtRest b
can_drain max sys r =
    drain_serving max (length sys.serving) sys (Reach-IsTracked max sys r) (omega arith) sys.serving
      refl
