-- ===== src/Descriptors/Destroying.antt =====
-- Which descriptors `SrsServer::destroy` closes.
use srslog.Base.{
  ℕ, ◌≡◌, refl, ap, inl, inr, ◌⊎◌, Bool, false, not, ◌&&◌, ◌||◌, Option, List, [], ◌∷◌, ◌++◌, arith,
  Bool-cases, if◌then◌else◌,
}
use srslog.Base.Int.{ℤ, pos, ltb_ℤ, eqb_ℤ}
use srslog.Listener.{ListenerType, Listener, type_eq, rtmp_stream, base}
use srslog.Signal.{SignalManager}
use srslog.Server.{
  Server, Event, free_listener, free_conn, close_client, close_pid_file, close_listeners, destroy,
}
use srslog.Descriptors.{
  Table, close, Library, srs_close_stfd, delete_listener, delete_manager, release, destroy_all,
}
use srslog.Descriptors.Closing.{KeepsOthers, over, srs_close_stfd_result}

-- Nothing else happens meanwhile.
abbrev pub quiet : Listener → Table → Table
quiet l t = t

abbrev pub of_listener : Library → Listener → ℤ → Bool
of_listener st l d = over st l.stfd d || eqb_ℤ d l.fd

-- The descriptors of listeners.
abbrev pub of_listeners : Library → List Listener → ℤ → Bool
of_listeners st [] d = false
of_listeners st (l ∷ ls) d = of_listener st l d || of_listeners st ls d

abbrev pub of_manager : Library → SignalManager → ℤ → Bool
of_manager st m d =
    over st m.read_stfd d
    || (ltb_ℤ (pos 0) m.read_end && eqb_ℤ d m.read_end)
    || (ltb_ℤ (pos 0) m.write_end && eqb_ℤ d m.write_end)

-- Those that a server holds beside its connections'.
abbrev pub of_server : Library → SignalManager → Server → ℤ → Bool
of_server st m s d =
    of_listeners st s.listeners d
    || (ltb_ℤ (pos 0) s.pid_fd && eqb_ℤ d s.pid_fd)
    || (s.signal_manager && of_manager st m d)

ListenerType-cases : (t : ListenerType) → (t ≡ rtmp_stream) ⊎ (t ≡ base)
ListenerType-cases rtmp_stream = inl refl
ListenerType-cases base = inr refl

all_closed : (ls : List Listener) → (close_listeners base (close_listeners rtmp_stream ls).0).0 ≡ []
unfolding close_listeners
all_closed [] = refl
all_closed (l ∷ ls) = elim (ListenerType-cases l.ltype) [
  | inl e ↦ rw (e, close_listeners) (all_closed ls)
  | inr e ↦ rw (e, close_listeners) (all_closed ls)
]

module _ (st : Library) (keeps : KeepsOthers st) (handles : ℕ → Option ℕ) where
  delete_listener-quiet :
      (l : Listener) (t : Table) (d : ℤ)
      → delete_listener st quiet l t d ≡ (t d && not (of_listener st l d))
  unfolding delete_listener close srs_close_stfd
  delete_listener-quiet l t d = ground (arith, (srs_close_stfd_result st keeps l.stfd t).1 d)

  release-append :
      (es fs : List Event) (t : Table)
      → release st quiet handles (es ++ fs) t
        ≡ release st quiet handles fs (release st quiet handles es t)
  unfolding release
  release-append [] fs t = refl
  release-append (free_listener l ∷ es) fs t = release-append es fs _
  release-append (free_conn a ∷ es) fs t = release-append es fs _
  release-append (close_client h ∷ es) fs t = release-append es fs _
  release-append (close_pid_file fd ∷ es) fs t = release-append es fs _

  release-close_listeners :
      (ty : ListenerType) (ls : List Listener) (t : Table) (d : ℤ)
      → (release st quiet handles (close_listeners ty ls).1 t d
          && not (of_listeners st (close_listeners ty ls).0 d))
        ≡ (t d && not (of_listeners st ls d))
  unfolding release close_listeners
  release-close_listeners ty [] t d = refl
  release-close_listeners ty (l ∷ ls) t d = elim (Bool-cases (type_eq l.ltype ty)) [
    | inl e ↦
        rw (e, close_listeners)
          (ground (
            arith,
            release-close_listeners ty ls (delete_listener st quiet l t) d,
            delete_listener-quiet l t d,
          ))
    | inr e ↦ rw (e, close_listeners) (ground (arith, release-close_listeners ty ls t d))
  ]

  -- Behind the two rounds of `close_listeners`.
  both_closed : Server → Table → Table
  both_closed s t =
      let (kept, freed) = close_listeners rtmp_stream s.listeners in
      release st quiet handles (close_listeners base kept).1 (release st quiet handles freed t)

  both_closed_lem :
      (s : Server) (t : Table) (d : ℤ)
      → both_closed s t d ≡ (t d && not (of_listeners st s.listeners d))
  unfolding both_closed
  both_closed_lem s t d =
      let (kept, freed) = close_listeners rtmp_stream s.listeners in
      ground (
        arith,
        all_closed s.listeners,
        release-close_listeners rtmp_stream s.listeners t d,
        release-close_listeners base kept (release st quiet handles freed t) d,
      )

  release-destroy :
      (s : Server) (t : Table)
      → release st quiet handles (destroy s).1 t
        ≡ (if ltb_ℤ (pos 0) s.pid_fd then close s.pid_fd (both_closed s t) else both_closed s t)
  unfolding destroy both_closed release
  release-destroy s t =
      let (kept, freed) = close_listeners rtmp_stream s.listeners in
      let freed' = (close_listeners base kept).1 in
      elim (Bool-cases (ltb_ℤ (pos 0) s.pid_fd)) [
        | inl e ↦
            rw
              (
                e,
                release-append freed (freed' ++ close_pid_file s.pid_fd ∷ []) t,
                release-append freed' (close_pid_file s.pid_fd ∷ [])
                    (release st quiet handles freed t),
              )
              refl
        | inr e ↦ rw (e, release-append freed freed' t) refl
      ]

  delete_manager_lem :
      (m : SignalManager) (t : Table) (d : ℤ)
      → delete_manager st (λ t'. t') m t d ≡ (t d && not (of_manager st m d))
  unfolding delete_manager close
  delete_manager_lem m t d = ground (arith, (srs_close_stfd_result st keeps m.read_stfd t).1 d)

  destroy-emptied :
      (s : Server)
      → let s' = (destroy s).0 in
        (s'.listeners ≡ [])
        × (s'.signal_manager ≡ false)
        × (ltb_ℤ (pos 0) s'.pid_fd ≡ false)
        × (s'.conns ≡ s.conns)
  unfolding destroy
  destroy-emptied s = ground (arith, all_closed s.listeners)

  destroy_all-destroy :
      (m : SignalManager) (s : Server) (t : Table)
      → (destroy_all st quiet (λ t'. t') handles m s t).0 ≡ (destroy s).0
  unfolding destroy_all
  destroy_all-destroy m s t = elim (Bool-cases s.signal_manager) [
    | inl e ↦ rw (e, destroy_all)
    | inr e ↦ rw (e, destroy_all)
  ]

  destroy_all-table :
      (m : SignalManager) (s : Server) (t : Table) (d : ℤ)
      → (destroy_all st quiet (λ t'. t') handles m s t).1 d ≡ (t d && not (of_server st m s d))
  unfolding destroy_all close
  destroy_all-table m s t d =
      let released = release st quiet handles (destroy s).1 t in
      ground (
        arith,
        ap (λ (t' : Table). t' d) (release-destroy s t),
        both_closed_lem s t d,
        delete_manager_lem m released d,
      )

  -- Where the library's close leaves the other descriptors alone, and with no other thread at work,
  -- `destroy` leaves the server with no listener, no pid file and no signal manager but with its
  -- connections, and closes exactly the descriptors of its listeners, the pid file and the signal
  -- manager: a connection's, which is none of these, stays as it was.
  pub destroy_all-closes :
      (m : SignalManager) (s : Server) (t : Table)
      → let r = destroy_all st quiet (λ t'. t') handles m s t in
        (r.0.listeners ≡ [])
        × (r.0.signal_manager ≡ false)
        × (ltb_ℤ (pos 0) r.0.pid_fd ≡ false)
        × (r.0.conns ≡ s.conns)
        × ((d : ℤ) → r.1 d ≡ (t d && not (of_server st m s d)))
  destroy_all-closes m s t =
      let (listeners, manager, pid, conns) = destroy-emptied s in
      let same = destroy_all-destroy m s t in
      rw same (listeners, manager, pid, conns, destroy_all-table m s t)
