-- ===== src/Tcpserver/Tests.antt =====
-- Tests of the package tcpserver on concrete states, and its theorems at them.
use wbsv.Common.{◌-◌, ◌≡◌, refl, Bool, true, false, none, some, [], ◌∷◌, Bytes, codes, pos}
use wbsv.Tcpserver.{rejected, track_conn, wg_done, begin_shutdown, wait_for_conns}
use wbsv.Tcpserver.Steps.{after_track, Step, new_system, accept_conn, Reach, begin_untrack, System}
use wbsv.Tcpserver.Echo.{handle_conn_echo, handle_conn, Timeouts, IsSmooth, Round}
use wbsv.Tcpserver.Shutdown.{
  Leaves, IsAtRest, can_drain, Reach-Drains, wait_for_conns_final, Drains, IsIdle,
}
use wbsv.Tcpserver.Tracked.{Reach-IsTracked, wg_done_safe, IsTracked}

abbrev one_conn : System
one_conn = accept_conn (new_system (pos 1))

abbrev leaving_conn : System
leaving_conn = begin_untrack one_conn 0

abbrev stopped : System
stopped = record (new_system (pos 1)) { server = begin_shutdown (new_system (pos 1)).server }

one_conn-Reach : Reach (new_system (pos 1)) one_conn
unfolding new_system
one_conn-Reach = Reach.before (Step.accepts refl) Reach.here

leaving_conn-Reach : Reach (new_system (pos 1)) leaving_conn
unfolding new_system accept_conn track_conn after_track
leaving_conn-Reach =
    Reach.before (Step.accepts refl) (Reach.before (Step.untracks 0 refl) Reach.here)

stopped-Reach : Reach (new_system (pos 1)) stopped
stopped-Reach = Reach.before Step.begins_shutdown Reach.here

second_conn_rejected : (track_conn one_conn.server 1).1 ≡ rejected
unfolding new_system accept_conn track_conn after_track
second_conn_rejected = refl

Reach-IsTracked_example : IsTracked (pos 1) leaving_conn
Reach-IsTracked_example = Reach-IsTracked (pos 1) leaving_conn leaving_conn-Reach

leaving_one : leaving_conn.leaving ≡ 1
unfolding new_system accept_conn track_conn after_track begin_untrack
leaving_one = refl

wg_done_safe_example :
    wg_done leaving_conn.server
    ≡ some (record leaving_conn.server { wg = leaving_conn.server.wg - 1 })
wg_done_safe_example = wg_done_safe (pos 1) leaving_conn 0 leaving_conn-Reach leaving_one

stopped-shutting : stopped.server.shutting ≡ true
unfolding begin_shutdown
stopped-shutting = refl

stopped-waits : wait_for_conns (pos 0) true stopped.server [] ≡ true
unfolding wait_for_conns begin_shutdown new_system
stopped-waits = refl

late_accept : Reach stopped (accept_conn stopped)
unfolding begin_shutdown new_system
late_accept = Reach.before (Step.accepts refl) Reach.here

wait_for_conns_final_example : IsIdle (accept_conn stopped)
wait_for_conns_final_example =
    wait_for_conns_final (pos 1) (pos 0) true stopped (accept_conn stopped) stopped-Reach
      stopped-shutting stopped-waits late_accept

Reach-Drains_example : Drains stopped (accept_conn stopped)
Reach-Drains_example = Reach-Drains late_accept stopped-shutting

can_drain_example : (b : System) × Leaves one_conn b × IsAtRest b
can_drain_example = can_drain (pos 1) one_conn one_conn-Reach

abbrev round_of : Bytes → Bool → Round
round_of bytes fails = record {
  read_deadline_fails = false;
  bytes = bytes;
  read_fails = fails;
  write_deadline_fails = false;
  write_breaks_at = none;
}

round_of-IsSmooth : (bytes : Bytes) (fails : Bool) → IsSmooth (round_of bytes fails)
round_of-IsSmooth bytes fails = record { read_deadline = refl; write_deadline = refl; write = refl }

abbrev seconds : Timeouts
seconds = record { read_timeout = pos 1; write_timeout = pos 1 }

handle_conn_echo_example :
    handle_conn seconds (round_of (codes "ab") false ∷ round_of (codes "c") true ∷ [])
    ≡ (codes "abc", true)
handle_conn_echo_example =
    handle_conn_echo seconds (round_of (codes "ab") false ∷ []) [] (round_of (codes "c") true)
      ((round_of-IsSmooth (codes "ab") false, refl), tt) (round_of-IsSmooth (codes "c") true) refl
