-- ===== src/Server/Accepting.antt =====
-- The accept loop of `SrsListener::cycle`, src/base/app_listener.cpp, which its thread calls again and
-- again, whatever code it returns.
use srslog.Base.{
  ℕ, suc, ◌+◌, ◌≤◌, ◌≡◌, Option, none, some, List, [], ◌∷◌, ◌++◌, arith, length, length-append,
}
use srslog.Base.Int.{ℤ, pos_part}
use srslog.ErrorCode.{success}
use srslog.Config.{ConfigInfo, get_max_connections}
use srslog.Listener.{ListenerType, Listener, rtmp_stream, base}
use srslog.Server.{
  Server, Event, free_listener, free_conn, close_client, close_pid_file, AcceptEnv, accept_client,
}

-- What `st_accept` gives: a client with what the server meets on taking it in, or `none`.
abbrev pub Accepted : Type 0
Accepted = Option (ℕ × AcceptEnv)

unfoldable pub cycle : ConfigInfo → Listener → Accepted → Server → ℤ × Server × List Event
cycle config l none s = (success, s, [])
cycle config l (some (client, env)) s = accept_client config env l.ltype client s

-- The rounds of the listener's thread.
unfoldable pub cycles : ConfigInfo → Listener → List Accepted → Server → Server × List Event
cycles config l [] s = (s, [])
cycles config l (a ∷ as') s =
    let (_, s', es) = cycle config l a s in
    let (s'', es') = cycles config l as' s' in (s'', es ++ es')

-- The clients that came, and those that were closed.
abbrev pub clients : List Accepted → ℕ
clients [] = 0
clients (none ∷ as') = clients as'
clients (some a ∷ as') = suc (clients as')

abbrev pub closed : List Event → ℕ
closed [] = 0
closed (close_client c ∷ es) = suc (closed es)
closed (free_conn c ∷ es) = closed es
closed (free_listener l ∷ es) = closed es
closed (close_pid_file f ∷ es) = closed es

closed-append : (es fs : List Event) → closed (es ++ fs) ≡ closed es + closed fs
closed-append [] fs = omega arith
closed-append (close_client c ∷ es) fs = omega (arith, closed-append es fs)
closed-append (free_conn c ∷ es) fs = closed-append es fs
closed-append (free_listener l ∷ es) fs = closed-append es fs
closed-append (close_pid_file f ∷ es) fs = closed-append es fs

module _ (config : ConfigInfo) where
  abbrev Fits : Server → Type 0
  Fits s = length s.conns ≤ pos_part (get_max_connections config)

  accept_once :
      (t : ListenerType) (client : ℕ) (env : AcceptEnv) (s : Server)
      → let (_, s', es) = accept_client config env t client s in
        (length s'.conns + closed es ≡ length s.conns + 1) × (Fits s → Fits s')
  unfolding accept_client
  accept_once rtmp_stream client env s = (ground arith, λ h. ground arith)
  accept_once base client env s = (
    ground (arith, length-append s.conns (env.address ∷ [])),
    λ h. ground (arith, length-append s.conns (env.address ∷ [])),
  )

  module _ (l : Listener) where
    -- Whatever clients come, failures of `st_accept` between, each is closed at once or becomes a
    -- connection, and no more connections than the configured maximum arise.
    pub accepted_or_closed :
        (as' : List Accepted) (s : Server)
        → length s.conns ≤ pos_part (get_max_connections config)
        → let (s', es) = cycles config l as' s in
          (length s'.conns + closed es ≡ length s.conns + clients as')
          × (length s'.conns ≤ pos_part (get_max_connections config))
    unfolding cycles cycle
    accepted_or_closed [] s h = (omega arith, h)
    accepted_or_closed (none ∷ as') s h = accepted_or_closed as' s h
    accepted_or_closed (some (client, env) ∷ as') s h =
        let (one, fits) = accept_once l.ltype client env s in
        let r = accept_client config env l.ltype client s in
        let (rest, bound) = accepted_or_closed as' r.1 (fits h) in
        (omega (arith, one, rest, closed-append r.2 (cycles config l as' r.1).1), bound)
