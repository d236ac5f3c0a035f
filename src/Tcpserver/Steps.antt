-- ===== src/Tcpserver/Steps.antt =====
-- The goroutines of `Serve` (internal/tcpserver/server.go) as a step relation.
use wbsv.Common.{ℕ, suc, ◌+◌, ◌≡◌, Bool, true, false, some, List, [], ◌∷◌, ℤ}
use wbsv.Tcpserver.{
  close_active_conns, begin_shutdown, delete, wg_done, TrackConnResult, forget_conn, member,
  track_conn, Server,
}

-- The server with its goroutines: `serving` are the connections that were accepted by `trackConn` and
-- whose `untrackConn` has not begun; `leaving` counts the goroutines between the two halves of
-- `untrackConn`; `accepting` says whether the loop of `Serve` runs. The listener numbers its
-- connections from 0: `next` is the number of the next one.
pub record System : Type 0 where
  pub server : Server
  pub serving : List ℕ
  pub leaving : ℕ
  pub accepting : Bool
  pub next : ℕ

unfoldable pub new_system : ℤ → System
new_system max = record {
  server = record {
    max_active_conns = max;
    active_conns = [];
    rejected_conns = 0;
    shutting = false;
    wg = 0;
  };
  serving = [];
  leaving = 0;
  accepting = true;
  next = 0;
}

unfoldable pub after_track : System → Server × TrackConnResult → System
after_track sys (s, TrackConnResult.accepted) = record sys {
  server = s;
  serving = sys.next ∷ sys.serving;
  next = sys.next + 1;
}
after_track sys (s, TrackConnResult.rejected) = record sys { server = s; next = sys.next + 1 }
after_track sys (s, TrackConnResult.shutting_down) = record sys {
  server = s;
  accepting = false;
  next = sys.next + 1;
}

-- One round of the loop of `Serve`: `Accept` returns a connection, and `trackConn` decides.
unfoldable pub accept_conn : System → System
unfolding after_track
accept_conn sys = after_track sys (track_conn sys.server sys.next)

-- The first half of `untrackConn`, at the end of `serveTrackedConn` or when no worker takes the
-- connection before the context ends.
unfoldable pub begin_untrack : System → ℕ → System
begin_untrack sys conn = record sys {
  server = forget_conn sys.server conn;
  serving = delete conn sys.serving;
  leaving = sys.leaving + 1;
}

pub data Step : System → System → Type 0 where
  accepts : {sys : System} → sys.accepting ≡ true → Step sys (accept_conn sys)
  accept_fails : {sys : System} → Step sys (record sys { accepting = false })
  untracks :
      {sys : System} (conn : ℕ) → member conn sys.serving ≡ true → Step sys (begin_untrack sys conn)
  done :
      {sys : System} (s : Server) (n : ℕ)
      → sys.leaving ≡ suc n
      → wg_done sys.server ≡ some s
      → Step sys (record sys { server = s; leaving = n })
  begins_shutdown : {sys : System} → Step sys (record sys { server = begin_shutdown sys.server })
  closes_active :
      {sys : System} → Step sys (record sys { server = (close_active_conns sys.server).0 })

-- From one system to another, by any number of steps.
pub data Reach : System → System → Type 0 where
  here : {sys : System} → Reach sys sys
  before : {a b c : System} → Step a b → Reach b c → Reach a c
