-- ===== src/Conn/Cycle.antt =====
-- One run of a connection's `cycle`.
use srslog.Base.{ℕ, ◌≡◌, ◌↔◌, ◌⊎◌, refl, true, false, arith}
use srslog.Base.Int.{ℤ}
use srslog.Bytes.{Bytes}
use srslog.ErrorCode.{success, socket_closed, is_client_gracefully_close}
use srslog.Context.{ThreadContext, generate_id}
use srslog.Thread.{SrsThread, stop_loop}
use srslog.Conn.{client_finished, client_disconnected, cycle}

module _ {A : Type 0} (do_cycle : A → ℤ × A) (set_ip : Bytes → A → A) (ip : Bytes) (self : ℕ)
    (c : A) (context : ThreadContext) (t : SrsThread) where
  -- Whatever the class's `do_cycle` returns, `cycle` returns success and turns its thread's loop off,
  -- with a new id for the thread. It reports the client's leaving exactly where the code is that of a
  -- closed socket or one of the three of a failed read or write, and its finishing exactly on success.
  pub cycle_result :
      let r = cycle do_cycle set_ip ip self c context t in
      let code = (do_cycle (set_ip ip c)).0 in
      (r.ret ≡ success)
      × (r.thread ≡ record t { loop = false })
      × (r.context ≡ generate_id self context)
      × (r.conn ≡ (do_cycle (set_ip ip c)).1)
      × ((r.report ≡ client_disconnected)
          ↔ ((code ≡ socket_closed) ⊎ (is_client_gracefully_close code ≡ true)))
      × ((r.report ≡ client_finished) ↔ (code ≡ success))
  unfolding cycle stop_loop is_client_gracefully_close
  cycle_result =
      (refl, refl, refl, refl, (ground arith, ground arith), (ground arith, ground arith))
