-- ===== src/Server/Uncounted.antt =====
-- What a server that `initialize` of src/base/app_server.cpp has made counts of its connections, all
-- of which are `SrsBaseConn` of src/conns/base/app_base_conn.cpp.
use mathlib.Core.Path.{subst}
use srslog.Base.{
  Bool, ℕ, ◌≡◌, true, false, Bool-cases, inl, inr, Option, none, some, Option-cases, List, [], ◌∷◌,
  arith,
}
use srslog.Base.Int.{ℤ, pos, int_laws}
use srslog.Clock.{Timeval, Clock, update_system_time_ms}
use srslog.Config.{ConfigInfo}
use srslog.Kbps.{
  Kbps, Statistic, new_slice, new_kbps, set_io, set_slice_io, set_starttime, sample_slice,
  sample_at, use_io, save_session, get_recv_bytes, get_send_bytes, get_total_bytes, add_delta,
  sample, refresh,
}
use srslog.Listener.{ListenerType, base, rtmp_stream}
use srslog.Server.{
  Server, new_server, initialize, remove, accept_client, AcceptEnv, contains, resample_conn,
  base_conn_delta,
}
use srslog.Server.Manager.{Run, Call, accepts, removes, step, run, after}

-- A statistic that has counted nothing and has no io of its own.
pub record Silent (k : Kbps) : Type 0 where
  pub no_in : k.is.io ≡ none
  pub no_out : k.os.io ≡ none
  pub none_received : get_recv_bytes k ≡ pos 0
  pub none_sent : get_send_bytes k ≡ pos 0

abbrev pub SilentServer : Option Kbps → Type 0
SilentServer none = ⊥
SilentServer (some k) = Silent k

abbrev MadeSilent : Option (ℤ × Server × Clock) → Type 0
MadeSilent none = ⊥
MadeSilent (some (ret, s, c)) = SilentServer s.kbps

module _ (gettimeofday : ℕ → Option Timeval) where
  set_slice_io-silent :
      (count : ℕ → ℤ) (c : Clock)
      → let s = (set_slice_io gettimeofday none count new_slice c).0 in
        (s.io ≡ none) × (get_total_bytes s ≡ pos 0)
  unfolding set_slice_io set_starttime sample_slice sample_at use_io save_session get_total_bytes
  set_slice_io-silent count c = (ground arith, grind int_laws)

  set_io-Silent :
      (stats : ℕ → Statistic) (c : Clock)
      → Silent (set_io gettimeofday none none stats new_kbps c).0
  unfolding set_io
  set_io-Silent stats c =
      let recv : ℕ → ℤ = λ p. (stats p).recv_bytes in
      let i = set_slice_io-silent recv c in
      let c' = (set_slice_io gettimeofday none recv new_slice c).1 in
      let o = set_slice_io-silent (λ p. (stats p).send_bytes) c' in
      record { no_in = i.0; no_out = o.0; none_received = i.1; none_sent = o.1 }

  initialize-Silent :
      (stats : ℕ → Statistic) (c : Clock) → MadeSilent (initialize gettimeofday stats new_server c)
  unfolding initialize
  initialize-Silent stats c = set_io-Silent stats (update_system_time_ms gettimeofday c)

module _ (gettimeofday : ℕ → Option Timeval) where
  sample-Silent :
      (stats : ℕ → Statistic) (k : Kbps) (c : Clock)
      → Silent k
      → Silent (sample gettimeofday stats k c).0
  unfolding sample sample_slice sample_at refresh get_total_bytes
  sample-Silent stats k c h = record {
    no_in = ground (arith, h.no_in);
    no_out = ground (arith, h.no_out);
    none_received = grind (int_laws, h.no_in, h.none_received);
    none_sent = grind (int_laws, h.no_out, h.none_sent);
  }

  -- `SrsBaseConn` has nothing to report.
  add_delta-Silent : (conn : ℕ) (k : Kbps) → Silent k → Silent (add_delta base_conn_delta conn k).1
  unfolding add_delta get_total_bytes
  add_delta-Silent conn k h = record {
    no_in = h.no_in;
    no_out = h.no_out;
    none_received = grind (int_laws, h.none_received);
    none_sent = grind (int_laws, h.none_sent);
  }

  resample_conn-Silent :
      (b : Bool) (conn : ℕ) (stats : ℕ → Statistic) (k : Kbps) (c : Clock)
      → Silent k
      → Silent (resample_conn gettimeofday b conn k stats c).0
  unfolding resample_conn
  resample_conn-Silent true conn stats k c h =
      sample-Silent stats (add_delta base_conn_delta conn k).1 c (add_delta-Silent conn k h)
  resample_conn-Silent false conn stats k c h = add_delta-Silent conn k h

  remove-Silent :
      (conn : ℕ) (stats : ℕ → Statistic) (r : Run)
      → SilentServer r.server.kbps
      → SilentServer (after r (remove gettimeofday conn stats r.server r.clock)).server.kbps
  unfolding remove
  remove-Silent conn stats r h = elim (Bool-cases (contains conn r.server.conns)) [
    | inl held ↦ elim (Option-cases r.server.kbps) [
      | inl e ↦ absurd (subst SilentServer e h)
      | inr (k, e) ↦
          rw (held, e, remove)
            (resample_conn-Silent true conn stats k r.clock (subst SilentServer e h))
    ]
    | inr absent ↦ rw (absent, remove) h
  ]

  accept_client-kbps :
      (config : ConfigInfo) (env : AcceptEnv) (t : ListenerType) (client : ℕ) (s : Server)
      → (accept_client config env t client s).1.kbps ≡ s.kbps
  unfolding accept_client
  accept_client-kbps config env rtmp_stream client s = ground arith
  accept_client-kbps config env base client s = ground arith

  run-Silent :
      (config : ConfigInfo) (r : Run) (calls : List Call)
      → SilentServer r.server.kbps
      → SilentServer (run gettimeofday config r calls).server.kbps
  run-Silent config r [] h = h
  run-Silent config r (accepts env t client ∷ calls) h =
      run-Silent config (step gettimeofday config r (accepts env t client)) calls
        (rw (accept_client-kbps config env t client r.server) h)
  run-Silent config r (removes conn stats ∷ calls) h =
      run-Silent config (step gettimeofday config r (removes conn stats)) calls
        (remove-Silent conn stats r h)

  -- Whatever clients are accepted and removed, and whatever their sockets have counted, the server
  -- that `initialize` has made keeps a statistic that has no io and has received and sent nothing.
  pub nothing_counted :
      (config : ConfigInfo) (stats : ℕ → Statistic) (c c' : Clock) (ret : ℤ) (s : Server)
      (calls : List Call)
      → initialize gettimeofday stats new_server c ≡ some (ret, s, c')
      → SilentServer
          (run gettimeofday config
            (record { server = s; clock = c'; events = []; created = [] })
            calls).server.kbps
  nothing_counted config stats c c' ret s calls made =
      run-Silent config (record { server = s; clock = c'; events = []; created = [] }) calls
        (subst MadeSilent made (initialize-Silent gettimeofday stats c))
