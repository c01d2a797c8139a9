-- ===== src/Conn/Life/Lives.antt =====
-- What holds of a connection, its thread and its manager at each place of the thread.
use srslog.Base.{ℕ, ◌≡◌, ◌≢◌, Bool, true, false, none, some, List, [], ◌∷◌, drop, arith}
use srslog.Base.Int.{pos, ◌≤ℤ◌}
use srslog.ErrorCode.{success}
use srslog.Clock.{Clock}
use srslog.Kbps.{Kbps}
use srslog.Context.{ThreadContext}
use srslog.Thread.{
  Callback, thread_start, before_cycle, cycle, end_cycle, thread_stop, Place, absent, created,
  starting, waiting, before, cycling, ending, sleeping, stopping, exited, outside, in_start, start,
  stop_loop, enter,
}
use srslog.Thread.Order.{begun}
use srslog.Server.{Server, erase}
use srslog.Conn.{SrsBaseConn, Report}
use srslog.Conn.Life.{Client, accepted}

-- All the callbacks of a connection's thread, the latest first.
abbrev pub lifetime : List Callback
lifetime = thread_stop ∷ end_cycle ∷ cycle ∷ before_cycle ∷ thread_start ∷ []

-- How many of them are still to come, at each place.
abbrev pub to_come : Place → ℕ
to_come absent = 5
to_come created = 5
to_come starting = 4
to_come waiting = 4
to_come before = 3
to_come cycling = 2
to_come ending = 1
to_come sleeping = 1
to_come stopping = 0
to_come exited = 0

abbrev pub looping : Place → Bool
looping ending = false
looping stopping = false
looping exited = false
looping _ = true

abbrev pub let_run : Place → Bool
let_run created = false
let_run starting = false
let_run waiting = false
let_run _ = true

-- The manager of `s` when the thread stands at a place.
abbrev pub conns_at : ℕ → Server → Place → List ℕ
conns_at address s exited = erase address s.conns
conns_at address s _ = s.conns

pub record Lives (address : ℕ) (s₀ : Server) (c : Client) : Type 0 where
  pub callbacks : c.system.trace ≡ drop (to_come c.system.place) lifetime
  pub running : (c.system.place ≢ absent) × (c.system.place ≢ sleeping)
  pub loops : c.system.thread.loop ≡ looping c.system.place
  pub has_id : begun c.system.place ≡ true → pos 0 ≤ℤ c.system.thread.cid
  pub asleep : c.system.caller ≡ in_start → c.system.thread.can_run ≡ false
  pub back :
      c.system.caller ≢ in_start
      → (c.system.caller ≡ outside success) × (c.system.thread.can_run ≡ true)
  pub ready : let_run c.system.place ≡ true → c.system.thread.can_run ≡ true
  pub kept : c.server.conns ≡ conns_at address s₀ c.system.place
  pub counting : c.server.kbps ≢ none
  pub sound : c.faulted ≡ false

pub accepted-Lives :
    (address client self : ℕ) (context : ThreadContext) (s : Server) (clock : Clock)
    → s.kbps ≢ none
    → Lives address s (accepted client self context s clock)
unfolding accepted start
accepted-Lives address client self context s clock k = ground arith

pub some_kbps : (k : Kbps) → some k ≢ none
some_kbps k e = cc

module _ (address : ℕ) (s₀ : Server) (c : Client) (h : Lives address s₀ c) where
  pub begun-Lives :
      (id : ℕ) (context : ThreadContext)
      → c.system.place ≡ created
      → Lives address s₀ (record c {
        system = enter starting (record (c.system) {
          thread = record (c.system.thread) { cid = pos id };
          context = context;
        });
      })
  begun-Lives id context e = ground arith

  pub cycled-Lives :
      (conn : SrsBaseConn) (context : ThreadContext) (reports : List Report)
      → c.system.place ≡ cycling
      → Lives address s₀ (record c {
        system =
            enter ending
              (record (c.system) { thread = stop_loop c.system.thread; context = context });
        conn = conn;
        reports = reports;
      })
  unfolding stop_loop
  cycled-Lives conn context reports e = ground arith

  pub removed-Lives :
      (s : Server) (clock : Clock)
      → c.system.place ≡ stopping
      → s.conns ≡ erase address c.server.conns
      → s.kbps ≢ none
      → Lives address s₀ (record c { system = enter exited c.system; server = s; clock = clock })
  removed-Lives s clock e erased counting = ground arith
