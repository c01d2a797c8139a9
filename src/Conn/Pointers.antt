-- ===== src/Conn/Pointers.antt =====
-- src/conns/base/app_base_server.h and app_base_server.cpp, with the pointers of app_base_conn.cpp:
-- a connection, its `SrsBaseServer` and the `SrsChargeProtocal` there point to one socket. `none`
-- is the use of a pointer to no socket.
use mathlib.Core.Option.{map}
use srslog.Base.{
  Bool-cases, inl, inr, ==_iff, sym, ℕ, ◌==◌, ◌≡◌, ◌≢◌, refl, ◌∙◌, Option, none, some, ◌>>=◌, arith,
  if◌then◌else◌,
}
use srslog.Base.Int.{ℤ, pos}
use srslog.ErrorCode.{success, point_null}
use srslog.Socket.{StSocket, new_socket, set_recv_timeout, set_send_timeout}
use srslog.Conn.{SrsBaseConn, account_timeout_us, new_conn, do_cycle}

-- The sockets, by their addresses.
abbrev pub Store : Type 0
Store = ℕ → Option StSocket

abbrev pub put : ℕ → Option StSocket → Store → Store
put a o st b = if b == a then o else st b

-- A method of the socket at `a` that changes it.
unfoldable pub update : (StSocket → StSocket) → ℕ → Store → Option Store
update f a st = elim (st a) [ none ↦ none | some s ↦ some (put a (some (f s)) st) ]

pub record SrsChargeProtocal : Type 0 where
  pub skt : ℕ

abbrev pub charge_set_recv_timeout : ℤ → SrsChargeProtocal → Store → Option Store
charge_set_recv_timeout t p = update (set_recv_timeout t) p.skt

abbrev pub charge_get_recv_timeout : SrsChargeProtocal → Store → Option ℤ
charge_get_recv_timeout p st = map (λ (s : StSocket). s.recv_timeout) (st p.skt)

abbrev pub charge_set_send_timeout : ℤ → SrsChargeProtocal → Store → Option Store
charge_set_send_timeout t p = update (set_send_timeout t) p.skt

abbrev pub charge_get_send_timeout : SrsChargeProtocal → Store → Option ℤ
charge_get_send_timeout p st = map (λ (s : StSocket). s.send_timeout) (st p.skt)

abbrev pub charge_get_recv_bytes : SrsChargeProtocal → Store → Option ℤ
charge_get_recv_bytes p st = map (λ (s : StSocket). s.recv_bytes) (st p.skt)

abbrev pub charge_get_send_bytes : SrsChargeProtocal → Store → Option ℤ
charge_get_send_bytes p st = map (λ (s : StSocket). s.send_bytes) (st p.skt)

-- `SrsBaseServer`, with its pointers.
pub record ServerPointers : Type 0 where
  pub io : ℕ
  pub protocol : SrsChargeProtocal

abbrev pub new_server : ℕ → ServerPointers
new_server skt = record { io = skt; protocol = record { skt = skt } }

abbrev pub server_set_recv_timeout : ℤ → ServerPointers → Store → Option Store
server_set_recv_timeout t p = charge_set_recv_timeout t p.protocol

abbrev pub server_get_recv_timeout : ServerPointers → Store → Option ℤ
server_get_recv_timeout p = charge_get_recv_timeout p.protocol

abbrev pub server_set_send_timeout : ℤ → ServerPointers → Store → Option Store
server_set_send_timeout t p = charge_set_send_timeout t p.protocol

abbrev pub server_get_send_timeout : ServerPointers → Store → Option ℤ
server_get_send_timeout p = charge_get_send_timeout p.protocol

-- The pointers of `SrsBaseConn`.
pub record ConnPointers : Type 0 where
  pub skt : ℕ
  pub proxy : Option ServerPointers

-- The constructor, with the address of the new socket, and the destructor.
unfoldable pub new_base_conn : ℕ → Store → ConnPointers × Store
new_base_conn a st = (record { skt = a; proxy = some (new_server a) }, put a (some new_socket) st)

unfoldable pub delete_base_conn : ConnPointers → Store → Store
delete_base_conn c st = put c.skt none st

unfoldable pub pointer_cycle : ConnPointers → Store → Option (ℤ × Store)
unfolding update
pointer_cycle c st = elim c.proxy [
  | none ↦ some (point_null, st)
  | some p ↦ do
    st₁ ← server_set_recv_timeout account_timeout_us p st
    st₂ ← server_set_send_timeout account_timeout_us p st₁
    some (success, st₂)
]

-- The connection `v` is what one sees through the pointers: the proxy reaches the connection's own
-- socket, which is the one that `v` has in its proxy.
abbrev pub Represents : Store → ConnPointers → SrsBaseConn → Type 0
Represents st c v =
    (p : ServerPointers) × (s : StSocket) × (c.proxy ≡ some p)
    × (p.protocol.skt ≡ c.skt)
    × (st c.skt ≡ some s)
    × (v.proxy ≡ some (record { protocol = s }))

put_same : (a : ℕ) (o : Option StSocket) (st : Store) → put a o st a ≡ o
put_same a o st = ground arith

put_other : (a b : ℕ) (o : Option StSocket) (st : Store) → b ≢ a → put a o st b ≡ st b
put_other a b o st n = ground arith

put_back :
    (a b : ℕ) (st' st : Store) → st a ≡ none → (b ≢ a → st' b ≡ st b) → put a none st' b ≡ st b
put_back a b st' st unused same = elim (Bool-cases (b == a)) [
  | inl e ↦ rw (e, (==_iff b a).0 e) (sym unused)
  | inr e ↦ rw e (same (λ q. absurd (ground (arith, e, q))))
]

update_lem :
    (f : StSocket → StSocket) (a : ℕ) (st : Store) (s : StSocket)
    → st a ≡ some s
    → update f a st ≡ some (put a (some (f s)) st)
unfolding update
update_lem f a st s e = rw (e, update)

abbrev timed : StSocket → StSocket
timed s = set_send_timeout account_timeout_us (set_recv_timeout account_timeout_us s)

abbrev cycled : ConnPointers → StSocket → Store → Store
cycled c s st =
    put c.skt (some (timed s)) (put c.skt (some (set_recv_timeout account_timeout_us s)) st)

pointer_cycle_lem :
    (st : Store) (c : ConnPointers) (p : ServerPointers) (s : StSocket)
    → c.proxy ≡ some p
    → p.protocol.skt ≡ c.skt
    → st c.skt ≡ some s
    → pointer_cycle c st ≡ some (success, cycled c s st)
unfolding pointer_cycle
pointer_cycle_lem st c p s e same at = rw (
  e,
  same,
  pointer_cycle,
  update_lem (set_recv_timeout account_timeout_us) c.skt st s at,
  update_lem (set_send_timeout account_timeout_us) c.skt
      (put c.skt (some (set_recv_timeout account_timeout_us s)) st)
      (set_recv_timeout account_timeout_us s)
      (put_same c.skt (some (set_recv_timeout account_timeout_us s)) st),
)

-- The model of a connection that holds its socket in its proxy is faithful to the pointers: where
-- it represents them, `do_cycle` through the pointers meets no missing socket and returns the same
-- code, the model's result represents the pointers again, so the connection's own socket has the
-- timeouts set through the proxy, and no other socket changes.
pub pointer_cycle-Represents :
    (st : Store) (c : ConnPointers) (v : SrsBaseConn)
    → Represents st c v
    → (st' : Store) × (pointer_cycle c st ≡ some ((do_cycle v).0, st'))
      × (Represents st' c (do_cycle v).1)
      × ((b : ℕ) → b ≢ c.skt → st' b ≡ st b)
unfolding do_cycle
pointer_cycle-Represents st c v (p, s, e, same, at, v_at) =
    let half = put c.skt (some (set_recv_timeout account_timeout_us s)) st in
    rw (v_at, do_cycle)
      (
        cycled c s st,
        pointer_cycle_lem st c p s e same at,
        (p, timed s, e, same, put_same c.skt (some (timed s)) half, refl),
        λ b n.
            put_other c.skt b (some (timed s)) half n
            ∙ put_other c.skt b (some (set_recv_timeout account_timeout_us s)) st n,
      )

-- A new connection represents what the model's new connection is.
pub new_base_conn-Represents :
    (a client : ℕ) (st : Store)
    → Represents (new_base_conn a st).1 (new_base_conn a st).0 (new_conn client)
unfolding new_base_conn
new_base_conn-Represents a client st =
    (new_server a, new_socket, refl, refl, put_same a (some new_socket) st, refl)

-- The whole life of a connection's socket, at an address that is not in use: the first cycle of the
-- new connection meets no missing socket and returns success; both timeouts are then 30 seconds, in
-- microseconds, as the proxy reads them through its pointers, no bytes are counted, and no other
-- socket has changed. When the connection is deleted, every address is as it was before.
pub new_base_conn-cycled :
    (a : ℕ) (st : Store)
    → st a ≡ none
    → let (c, st₁) = new_base_conn a st in
      (st₂ : Store) × (pointer_cycle c st₁ ≡ some (success, st₂))
      × (server_get_recv_timeout (new_server a) st₂ ≡ some (pos 30000000))
      × (server_get_send_timeout (new_server a) st₂ ≡ some (pos 30000000))
      × (charge_get_recv_bytes (new_server a).protocol st₂ ≡ some (pos 0))
      × (charge_get_send_bytes (new_server a).protocol st₂ ≡ some (pos 0))
      × ((b : ℕ) → b ≢ a → st₂ b ≡ st b)
      × ((b : ℕ) → delete_base_conn c st₂ b ≡ st b)
unfolding new_base_conn delete_base_conn
new_base_conn-cycled a st unused =
    let st₁ = put a (some new_socket) st in
    let c = (new_base_conn a st).0 in
    let half = put a (some (set_recv_timeout account_timeout_us new_socket)) st₁ in
    let own = put_same a (some (timed new_socket)) half in
    let others : (b : ℕ) → b ≢ a → cycled c new_socket st₁ b ≡ st b = λ b n.
      put_other a b (some (timed new_socket)) half n
      ∙ put_other a b (some (set_recv_timeout account_timeout_us new_socket)) st₁ n
      ∙ put_other a b (some new_socket) st n in
    (
      cycled c new_socket st₁,
      pointer_cycle_lem st₁ c (new_server a) new_socket refl refl (put_same a (some new_socket) st),
      rw own,
      rw own,
      rw own,
      rw own,
      others,
      λ b. put_back a b (cycled c new_socket st₁) st unused (others b),
    )
