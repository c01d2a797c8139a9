-- ===== src/Descriptors/Closing.antt =====
-- Which descriptors `srs_close_stfd` and the destructor of a connection close.
use srslog.Base.{
  ℕ, ◌≡◌, refl, inl, inr, Bool, false, not, ◌&&◌, Option, none, some, arith, Option-cases,
}
use srslog.Base.Int.{ℤ, eqb_ℤ}
use srslog.ErrorCode.{success}
use srslog.Thread.{System, outside, stop, joins}
use srslog.Descriptors.{Table, close, Library, srs_close_stfd, delete_conn}

-- Closing a handle leaves the other descriptors alone.
abbrev pub KeepsOthers : Library → Type 0
KeepsOthers st =
    (h : ℕ) (t : Table) (d : ℤ) → eqb_ℤ d (st.fileno h) ≡ false → st.netfd_close h t d ≡ t d

-- `d` is the descriptor of a handle, if there is one.
abbrev pub over : Library → Option ℕ → ℤ → Bool
over st none d = false
over st (some h) d = eqb_ℤ d (st.fileno h)

module _ (st : Library) (keeps : KeepsOthers st) where
  -- Whatever `st_netfd_close` does to the descriptor itself, `srs_close_stfd` forgets the handle and
  -- closes exactly its descriptor; without a handle nothing is closed.
  pub srs_close_stfd_result :
      (stfd : Option ℕ) (t : Table)
      → ((srs_close_stfd st stfd t).0 ≡ none)
        × ((d : ℤ) → (srs_close_stfd st stfd t).1 d ≡ (t d && not (over st stfd d)))
  unfolding srs_close_stfd close
  srs_close_stfd_result none t = (refl, λ d. ground arith)
  srs_close_stfd_result (some h) t = (refl, λ d. ground (arith, keeps h t d))

-- A connection that its own thread deletes, which is not joinable, closes its descriptor and waits
-- for nothing: the thread stands where it stood, and is let go.
delete_conn_result :
    (st : Library) (keeps : KeepsOthers st) (stfd : Option ℕ) (s : System) (t : Table)
    → s.thread.joinable ≡ false
    → let r = delete_conn st stfd s t in
      (r.0.caller ≡ outside success)
      × (r.0.thread.tid ≡ none)
      × (r.0.place ≡ s.place)
      × ((d : ℤ) → r.1 d ≡ (t d && not (over st stfd d)))
unfolding delete_conn stop joins
delete_conn_result st keeps stfd s t free = elim (Option-cases s.thread.tid) [
  | inl e ↦
      rw (e, free, delete_conn, stop, joins)
        (refl, refl, refl, (srs_close_stfd_result st keeps stfd t).1)
  | inr (self, e) ↦
      rw (e, free, delete_conn, stop, joins)
        (refl, refl, refl, (srs_close_stfd_result st keeps stfd t).1)
]
