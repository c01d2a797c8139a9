-- ===== src/Descriptors/Clients.antt =====
-- The descriptors of the clients, over any history of arrivals and removals.
use srslog.Base.{
  ℕ, ◌+◌, ◌==◌, ◌≡◌, refl, ap, ◌∙◌, inl, inr, ◌⊎◌, Bool, true, false, ◌||◌, Option, some, List, [],
  ◌∷◌, ◌++◌, arith, Bool-cases, if◌then◌else◌, Option-cases,
}
use srslog.Base.Int.{ℤ, eqb_ℤ, eqb→eq}
use srslog.Clock.{Timeval}
use srslog.Kbps.{Statistic}
use srslog.Config.{ConfigInfo}
use srslog.Listener.{ListenerType, Listener, rtmp_stream, base}
use srslog.Server.{Server, close_client, contains, erase, AcceptEnv, accept_client, remove}
use srslog.Server.Manager.{contains-append}
use srslog.Descriptors.{
  Table, open_fd, Library, srs_close_stfd, release, Books, Call, arrives, leaves, arrive, leave,
  book, books,
}
use srslog.Descriptors.Closing.{KeepsOthers, over, srs_close_stfd_result}

abbrev pub bit : Bool → ℕ
bit true = 1
bit false = 0

-- How many of the connections have the descriptor `d`.
abbrev pub uses : Library → (ℕ → Option ℕ) → List ℕ → ℤ → ℕ
uses st handles [] d = 0
uses st handles (c ∷ cs) d = bit (over st (handles c) d) + uses st handles cs d

abbrev pub with_handle : (ℕ → Option ℕ) → ℕ → ℕ → ℕ → Option ℕ
with_handle handles address h a = if a == address then some h else handles a

-- A descriptor is open as it was in `t₀`, or else because exactly one connection has it.
abbrev pub Accounted : Library → Table → Books → Type 0
Accounted st t₀ b = (d : ℤ) → bit (b.table d) ≡ bit (t₀ d) + uses st b.handles b.server.conns d

module _ (st : Library) where
  pub uses-append :
      (handles : ℕ → Option ℕ) (cs : List ℕ) (a : ℕ) (d : ℤ)
      → uses st handles (cs ++ a ∷ []) d ≡ uses st handles cs d + bit (over st (handles a) d)
  uses-append handles [] a d = omega arith
  uses-append handles (c ∷ cs) a d = omega (arith, uses-append handles cs a d)

  uses-with_handle :
      (handles : ℕ → Option ℕ) (address h : ℕ) (cs : List ℕ) (d : ℤ)
      → contains address cs ≡ false
      → uses st (with_handle handles address h) cs d ≡ uses st handles cs d
  unfolding contains
  uses-with_handle handles address h [] d absent = refl
  uses-with_handle handles address h (c ∷ cs) d absent =
      ground (arith, uses-with_handle handles address h cs d)

  uses-erase :
      (handles : ℕ → Option ℕ) (a : ℕ) (cs : List ℕ) (d : ℤ)
      → contains a cs ≡ true
      → uses st handles (erase a cs) d + bit (over st (handles a) d) ≡ uses st handles cs d
  unfolding contains erase
  uses-erase handles a [] d held = cc
  uses-erase handles a (c ∷ cs) d held = ground (arith, uses-erase handles a cs d)

abbrev Refused : ConfigInfo → AcceptEnv → ListenerType → ℕ → Server → Type 0
Refused config env t h s =
    ((accept_client config env t h s).1 ≡ s)
    × ((accept_client config env t h s).2 ≡ close_client h ∷ [])

abbrev Taken : ConfigInfo → AcceptEnv → ListenerType → ℕ → Server → Type 0
Taken config env t h s =
    ((accept_client config env t h s).1.conns ≡ s.conns ++ env.address ∷ [])
    × ((accept_client config env t h s).2 ≡ [])

accept_client-cases :
    (config : ConfigInfo) (env : AcceptEnv) (t : ListenerType) (h : ℕ) (s : Server)
    → Refused config env t h s ⊎ Taken config env t h s
unfolding accept_client
accept_client-cases config env rtmp_stream h s = ground arith
accept_client-cases config env base h s = ground arith

bit-open_fd :
    (fd : ℤ) (t : Table) (d : ℤ)
    → t fd ≡ false
    → bit (open_fd fd t d) ≡ bit (t d) + bit (eqb_ℤ d fd)
bit-open_fd fd t d free = elim (Bool-cases (eqb_ℤ d fd)) [
  | inl e ↦ rw (eqb→eq d fd e) (ground (arith, free))
  | inr e ↦ ground arith
]

module _ (st : Library) (keeps : KeepsOthers st) (gettimeofday : ℕ → Option Timeval)
    (config : ConfigInfo) (meanwhile : Listener → Table → Table) (t₀ : Table) where
  closed_again :
      (h : ℕ) (t : Table) (d : ℤ)
      → t (st.fileno h) ≡ false
      → (srs_close_stfd st (some h) (open_fd (st.fileno h) t)).1 d ≡ t d
  unfolding srs_close_stfd
  closed_again h t d free = elim (Bool-cases (eqb_ℤ d (st.fileno h))) [
    | inl e ↦ rw (eqb→eq d (st.fileno h) e) (
        ground (
          arith,
          free,
          (srs_close_stfd_result st keeps (some h) (open_fd (st.fileno h) t)).1 (st.fileno h),
        ))
    | inr e ↦
        ground (arith, (srs_close_stfd_result st keeps (some h) (open_fd (st.fileno h) t)).1 d)
  ]

  own_handle :
      (handles : ℕ → Option ℕ) (address h : ℕ) (d : ℤ)
      → bit (over st (with_handle handles address h address) d) ≡ bit (eqb_ℤ d (st.fileno h))
  own_handle handles address h d = ground arith

  arrive-Accounted :
      (env : AcceptEnv) (ty : ListenerType) (h : ℕ) (b : Books)
      → b.table (st.fileno h) ≡ false
      → contains env.address b.server.conns ≡ false
      → Accounted st t₀ b
      → Accounted st t₀ (arrive st gettimeofday config meanwhile env ty h b)
  unfolding arrive release
  arrive-Accounted env ty h b free absent acc d =
      elim (accept_client-cases config env ty h b.server) [
        | inl (s, es) ↦ rw (s, es, absent) (ap bit (closed_again h b.table d free) ∙ acc d)
        | inr (cs, es) ↦
            rw (cs, es, contains-append env.address b.server.conns)
              (omega (
                arith,
                acc d,
                bit-open_fd (st.fileno h) b.table d free,
                uses-append st (with_handle b.handles env.address h) b.server.conns env.address d,
                uses-with_handle st b.handles env.address h b.server.conns d absent,
                own_handle b.handles env.address h d,
              ))
      ]

  freed-Accounted :
      (a : ℕ) (b : Books)
      → Accounted st t₀ b
      → contains a b.server.conns ≡ true
      → (d : ℤ)
      → bit ((srs_close_stfd st (b.handles a) b.table).1 d)
        ≡ bit (t₀ d) + uses st b.handles (erase a b.server.conns) d
  freed-Accounted a b acc held d = ground (
    arith,
    acc d,
    uses-erase st b.handles a b.server.conns d held,
    (srs_close_stfd_result st keeps (b.handles a) b.table).1 d,
  )

  leave-Accounted :
      (a : ℕ) (stats : ℕ → Statistic) (b : Books)
      → Accounted st t₀ b
      → Accounted st t₀ (leave st gettimeofday config meanwhile a stats b)
  unfolding leave release remove
  leave-Accounted a stats b acc d = elim (Bool-cases (contains a b.server.conns)) [
    | inr absent ↦ rw (absent, leave, remove) (acc d)
    | inl held ↦ elim (Option-cases b.server.kbps) [
      | inl e ↦ rw (held, e, leave, remove) (acc d)
      | inr (k, e) ↦ rw (held, e, leave, remove) (freed-Accounted a b acc held d)
    ]
  ]

  pub book-Accounted :
      (b : Books) (c : Call)
      → Accounted st t₀ b
      → Accounted st t₀ (book st gettimeofday config meanwhile b c)
  unfolding book
  book-Accounted b (arrives env ty h) acc =
      elim (Bool-cases (b.table (st.fileno h) || contains env.address b.server.conns)) [
        | inl e ↦ rw (e, book) acc
        | inr e ↦
            rw (e, book) (arrive-Accounted env ty h b (ground (arith, e)) (ground (arith, e)) acc)
      ]
  book-Accounted b (leaves a stats) acc = leave-Accounted a stats b acc

  pub books-Accounted :
      (b : Books) (cs : List Call)
      → Accounted st t₀ b
      → Accounted st t₀ (books st gettimeofday config meanwhile b cs)
  unfolding books
  books-Accounted b [] acc = acc
  books-Accounted b (c ∷ cs) acc =
      books-Accounted (book st gettimeofday config meanwhile b c) cs (book-Accounted b c acc)

module _ (st : Library) (gettimeofday : ℕ → Option Timeval) (config : ConfigInfo)
    (meanwhile : Listener → Table → Table) (b : Books) (cs : List Call) where
  abbrev pub after : Books
  after = books st gettimeofday config meanwhile b cs

  -- Where the library's close leaves the other descriptors alone: from a server without connections
  -- on, over any history of arriving clients and of connections removed, a descriptor is open at the
  -- end exactly as often as it was open in the beginning and as connections in the manager have it.
  -- So none is leaked, none is closed while a connection has it, and no two connections share one.
  pub clients_accounted :
      KeepsOthers st
      → b.server.conns ≡ []
      → (d : ℤ) → bit (after.table d) ≡ bit (b.table d) + uses st after.handles after.server.conns d
  clients_accounted keeps empty d =
      books-Accounted st keeps gettimeofday config meanwhile b.table b cs starts d
    where
      starts : Accounted st b.table b
      starts d' = rw empty (omega arith)
