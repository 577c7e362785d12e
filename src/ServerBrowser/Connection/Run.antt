-- ===== src/ServerBrowser/Connection/Run.antt =====
-- Connections that come and go in any order, beside the other services.
use fruitspy.Prelude.{
  Bool, Text, Bytes, ℕ, ◌≡◌, none, some, List, [], ◌∷◌, ◌++◌, nat_eq, list_eq, Error, ok, err,
}
use fruitspy.State.{ServerState}
use fruitspy.Drain.{DrainController}
use fruitspy.ConnectionAdmission
use fruitspy.ConnectionAdmission.{ConnectionAdmission, acquire, release, release_counted, count}
use fruitspy.ServerBrowser.{TextOps, ServerBrowser}
use fruitspy.ServerBrowser.Connection.{
  Connection, open_connection, serve_frame, push_registered_servers, close_connection,
}

-- The service with the connections that are open. Any of them may be the next to act, and the other
-- services may change the shared state and the drain.
pub record Service : Type 0 where
  pub server : ServerBrowser
  pub connections : List Connection

pub data Step (s t : Service) : Type 0 where
  opened :
      (source : Text) (c : Connection)
      → open_connection source s.server ≡ (some c, t.server)
      → t.connections ≡ c ∷ s.connections
      → Step s t
  refused :
      (source : Text)
      → open_connection source s.server ≡ (none, t.server)
      → t.connections ≡ s.connections
      → Step s t
  served :
      (ops : TextOps) (clock : ℕ → ℕ) (salt server_challenge header received : Bytes) (late : Bool)
      (before after : List Connection) (c next : Connection)
      → s.connections ≡ before ++ c ∷ after
      → serve_frame ops clock salt server_challenge header received late c s.server
        ≡ (ok next, t.server)
      → t.connections ≡ before ++ next ∷ after
      → Step s t
  rejected :
      (ops : TextOps) (clock : ℕ → ℕ) (salt server_challenge header received : Bytes) (late : Bool)
      (before after : List Connection) (c : Connection) (e : Error) (failed : ServerBrowser)
      → s.connections ≡ before ++ c ∷ after
      → serve_frame ops clock salt server_challenge header received late c s.server
        ≡ (err e, failed)
      → t.server ≡ close_connection (some e) c failed
      → t.connections ≡ before ++ after
      → Step s t
  ended :
      (before after : List Connection) (c : Connection)
      → s.connections ≡ before ++ c ∷ after
      → t.server ≡ close_connection none c s.server
      → t.connections ≡ before ++ after
      → Step s t
  pushed :
      (ops : TextOps) (now : ℕ) (before after : List Connection) (c next : Connection)
      → s.connections ≡ before ++ c ∷ after
      → push_registered_servers ops now c s.server ≡ (next, t.server)
      → t.connections ≡ before ++ next ∷ after
      → Step s t
  shared_changed :
      (state : ServerState) (drain : DrainController)
      → t.server ≡ record s.server { state = state; drain = drain }
      → t.connections ≡ s.connections
      → Step s t

pub data Reaches (s : Service) : Service → Type 0 where
  here : Reaches s s
  next : {t u : Service} → Reaches s t → Step t u → Reaches s u

-- The service before its first connection.
unfoldable pub no_connections : ServerBrowser → ℕ → ℕ → Service
no_connections s total per_source = record {
  server = record s { admission = ConnectionAdmission.create total per_source };
  connections = [];
}
