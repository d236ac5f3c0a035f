-- ===== src/Tcpserver.antt =====
-- internal/tcpserver/server.go: which connections the server counts. A `net.Conn` is a pointer: it is
-- modelled by its number. Each function here is one critical section of the mutex or one call on the
-- wait group, so that any interleaving of goroutines is a sequence of them.
pub mod Steps
pub mod Tracked
pub mod Shutdown
pub mod Echo
pub mod Tests
use wbsv.Common.{
  ℕ, ◌+◌, ◌-◌, Bool, true, false, ◌&&◌, ◌||◌, Option, none, some, List, [], ◌∷◌, ◌==◌,
  if◌then◌else◌, length, any, ℤ, ltb_ℤ, leb_ℤ, pos,
}

-- `trackConnResult`
pub data TrackConnResult : Type 0 where
  accepted : TrackConnResult
  rejected : TrackConnResult
  shutting_down : TrackConnResult

-- The fields of `Server` that the operations read or change; `wg` is the counter of the wait group.
pub record Server : Type 0 where
  pub max_active_conns : ℤ
  pub active_conns : List ℕ
  pub rejected_conns : ℕ
  pub shutting : Bool
  pub wg : ℕ

pub record Stats : Type 0 where
  pub active_connections : ℕ
  pub rejected_connections : ℕ

abbrev pub member : ℕ → List ℕ → Bool
member c conns = any (λ x. x == c) conns

-- the assignment of a key to the map
abbrev pub add_conn : ℕ → List ℕ → List ℕ
add_conn c conns = if member c conns then conns else c ∷ conns

-- `delete(s.activeConns, conn)`
unfoldable pub delete : ℕ → List ℕ → List ℕ
delete c [] = []
delete c (x ∷ conns) = let rest = delete c conns in if x == c then rest else x ∷ rest

-- `s.MaxActiveConns > 0 && len(s.activeConns) >= s.MaxActiveConns`
abbrev pub is_full : Server → Bool
is_full s =
    ltb_ℤ (pos 0) s.max_active_conns && leb_ℤ s.max_active_conns (pos (length s.active_conns))

unfoldable pub track_conn : Server → ℕ → Server × TrackConnResult
track_conn s conn =
    if s.shutting
    then (s, shutting_down)
    else if is_full s
    then (record s { rejected_conns = s.rejected_conns + 1 }, rejected)
    else (record s { wg = s.wg + 1; active_conns = add_conn conn s.active_conns }, accepted)

-- `untrackConn` under the mutex
unfoldable pub forget_conn : Server → ℕ → Server
unfolding delete
forget_conn s conn = record s { active_conns = delete conn s.active_conns }

-- `s.wg.Done()`; `none` is the panic at a negative counter
unfoldable pub wg_done : Server → Option Server
wg_done s = if s.wg == 0 then none else some (record s { wg = s.wg - 1 })

-- `Stats`, without the number of goroutines
unfoldable pub stats : Server → Stats
stats s = record {
  active_connections = length s.active_conns;
  rejected_connections = s.rejected_conns;
}

unfoldable pub begin_shutdown : Server → Server
begin_shutdown s = record s { shutting = true }

-- `closeActiveConns`, with the connections that it closes
unfoldable pub close_active_conns : Server → Server × List ℕ
close_active_conns s = (record s { shutting = true }, s.active_conns)

-- the rounds of `WaitForIdle`: the server as each tick finds it, until the timer fires
abbrev pub idle_at : List Server → Bool
idle_at [] = false
idle_at (s ∷ ticks) = (stats s).active_connections == 0 || idle_at ticks

unfoldable pub wait_for_idle : ℤ → Server → List Server → Bool
unfolding stats
wait_for_idle timeout s ticks =
    if leb_ℤ timeout (pos 0)
    then (stats s).active_connections == 0
    else (stats s).active_connections == 0 || idle_at ticks

-- `waitForConns`: the server as the call finds it, and then until the timer fires. Without a timeout
-- the select may take its default even when the counter is 0, so that `scheduled` says whether the
-- goroutine of the wait has run.
unfoldable pub wait_for_conns : ℤ → Bool → Server → List Server → Bool
wait_for_conns timeout scheduled s later =
    if leb_ℤ timeout (pos 0)
    then scheduled && s.wg == 0
    else any (λ (x : Server). x.wg == 0) (s ∷ later)
