-- ===== src/Serving/Calls.antt =====
-- What a client that arrives and a connection that ends change of the server.
use srslog.Base.{
  ℕ, ◌≤◌, ◌≡◌, ◌≢◌, refl, inl, inr, true, ◌||◌, Option, none, some, Option-cases, Bool-cases, List,
  [], ◌∷◌, length, length-append, arith,
}
use srslog.Base.Int.{pos_part}
use srslog.Clock.{Timeval, Clock}
use srslog.Kbps.{Statistic, Kbps}
use srslog.Config.{ConfigInfo, get_max_connections}
use srslog.Listener.{ListenerType, rtmp_stream, base}
use srslog.Server.{
  Server, Event, Signalled, AcceptEnv, goes_on, exits, accept_client, contains, erase, on_signal,
}
use srslog.Server
use srslog.Server.Manager.{length-erase}
use srslog.Descriptors.{Library, Books, Call, arrives, leaves, arrive, leave, book}
use srslog.Serving.{untouched}

accept_client_keeps :
    (config : ConfigInfo) (env : AcceptEnv) (t : ListenerType) (h : ℕ) (s : Server)
    → length s.conns ≤ pos_part (get_max_connections config)
    → let s' = (accept_client config env t h s).1 in
      (length s'.conns ≤ pos_part (get_max_connections config))
      × (s'.kbps ≡ s.kbps)
      × (s'.listeners ≡ s.listeners)
unfolding accept_client
accept_client_keeps config env rtmp_stream h s b = ground arith
accept_client_keeps config env base h s b = ground (arith, length-append s.conns (env.address ∷ []))

some_kbps : (k : Kbps) → some k ≢ none
some_kbps k e = cc

module _ (gettimeofday : ℕ → Option Timeval) where
  pub remove_keeps :
      (a : ℕ) (stats : ℕ → Statistic) (s : Server) (c : Clock)
      → s.kbps ≢ none
      → (s' : Server) × (c' : Clock) × (es : List Event) × (Server.remove gettimeofday a stats s c
          ≡ some (s', c', es))
        × (length s'.conns ≤ length s.conns)
        × (s'.kbps ≢ none)
        × (s'.listeners ≡ s.listeners)
  unfolding Server.remove
  remove_keeps a stats s c counting = elim (Bool-cases (contains a s.conns)) [
    | inr absent ↦ (s, c, [], rw (absent, Server.remove), omega arith, counting, refl)
    | inl held ↦ elim (Option-cases s.kbps) [
      | inl e ↦ absurd (counting e)
      | inr (k, e) ↦
          let (k', c') = Server.resample_conn gettimeofday true a k stats c in
          (
            record s { conns = erase a s.conns; kbps = some k' },
            c',
            Server.free_conn a ∷ [],
            rw (held, e, Server.remove),
            length-erase a s.conns,
            some_kbps k',
            refl,
          )
    ]
  ]

module _ (st : Library) (gettimeofday : ℕ → Option Timeval) (config : ConfigInfo) where
  abbrev booked : Books → Call → Books
  booked b c = book st gettimeofday config untouched b c

  pub arrives_keeps :
      (env : AcceptEnv) (ty : ListenerType) (h : ℕ) (b : Books)
      → length b.server.conns ≤ pos_part (get_max_connections config)
      → let b' = booked b (arrives env ty h) in
        (length b'.server.conns ≤ pos_part (get_max_connections config))
        × (b'.server.kbps ≡ b.server.kbps)
  unfolding book arrive
  arrives_keeps env ty h b bound =
      elim (Bool-cases (b.table (st.fileno h) || contains env.address b.server.conns)) [
        | inl e ↦ rw (e, book) (bound, refl)
        | inr e ↦
            let (l, k, _) = accept_client_keeps config env ty h b.server bound in
            rw (e, book) (l, k)
      ]

  pub leaves_keeps :
      (a : ℕ) (stats : ℕ → Statistic) (b : Books)
      → b.server.kbps ≢ none
      → let b' = booked b (leaves a stats) in
        (length b'.server.conns ≤ length b.server.conns) × (b'.server.kbps ≢ none)
  unfolding book leave
  leaves_keeps a stats b counting =
      let (s', c', es, e, l, k, _) = remove_keeps gettimeofday a stats b.server b.clock counting in
      rw (e, leave) (l, k)
