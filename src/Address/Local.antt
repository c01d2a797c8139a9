-- ===== src/Address/Local.antt =====
-- Which addresses are taken for the machine's own.
use mathlib.Core.List.{append-nil, append_assoc}
use srslog.Base.{
  ℕ, ◌≡◌, refl, ap, ◌∙◌, inl, inr, Bool, true, false, not, ◌&&◌, Option, none, some, Option-cases,
  List, [], ◌∷◌, ◌++◌, arith, Bool-cases, ◌==◌, if◌then◌else◌,
}
use srslog.Bytes.{Bytes, beq, c_str}
use srslog.Address.{Sockaddr, af_inet, localhost, retrieve_ips, srs_get_local_ipv4_ips}

module _ (inet_ntop : ℕ → Bytes → Option Bytes) where
  -- The text of a device's address, where it has one of version 4 that can be written and is not the
  -- loopback's.
  unfoldable pub text_of : Option Sockaddr → List Bytes
  text_of none = []
  text_of (some a) =
      if a.family == af_inet
      then (elim (inet_ntop a.family a.host) [
        | none ↦ []
        | some ip ↦ if beq (c_str ip) localhost then [] else c_str ip ∷ []
      ])
      else []

  abbrev pub outside_texts : List (Option Sockaddr) → List Bytes
  outside_texts [] = []
  outside_texts (p ∷ ps) = text_of p ++ outside_texts ps

  -- The address is of version 4, and cannot be written.
  abbrev pub fails : Option Sockaddr → Bool
  fails none = false
  fails (some a) = elim (inet_ntop a.family a.host) [ none ↦ a.family == af_inet | some ip ↦ false ]

  abbrev pub none_fails : List (Option Sockaddr) → Bool
  none_fails [] = true
  none_fails (p ∷ ps) = not (fails p) && none_fails ps

  -- One device that does not fail.
  retrieve_ips_cons :
      (p : Option Sockaddr) (ps : List (Option Sockaddr)) (ips : List Bytes)
      → fails p ≡ false
      → retrieve_ips inet_ntop (p ∷ ps) ips ≡ retrieve_ips inet_ntop ps (ips ++ text_of p)
  unfolding retrieve_ips text_of
  retrieve_ips_cons none ps ips h = rw (append-nil ips)
  retrieve_ips_cons (some a) ps ips h = elim (Bool-cases (a.family == af_inet)) [
    | inr other ↦ rw (other, retrieve_ips, text_of) (rw (append-nil ips))
    | inl v4 ↦ elim (Option-cases (inet_ntop a.family a.host)) [
      | inl e ↦ ground (arith, e, v4)
      | inr (ip, e) ↦ elim (Bool-cases (beq (c_str ip) localhost)) [
        | inl own ↦ rw (v4, e, own, retrieve_ips, text_of) (rw (append-nil ips))
        | inr outside ↦ rw (v4, e, outside, retrieve_ips, text_of)
      ]
    ]
  ]

  retrieve_ips-fails :
      (p : Option Sockaddr) (ps : List (Option Sockaddr)) (ips : List Bytes)
      → fails p ≡ true
      → retrieve_ips inet_ntop (p ∷ ps) ips ≡ ips
  unfolding retrieve_ips
  retrieve_ips-fails none ps ips h = cc
  retrieve_ips-fails (some a) ps ips h = ground arith

  retrieve_ips-append :
      (ps rest : List (Option Sockaddr)) (ips : List Bytes)
      → none_fails ps ≡ true
      → retrieve_ips inet_ntop (ps ++ rest) ips
        ≡ retrieve_ips inet_ntop rest (ips ++ outside_texts ps)
  retrieve_ips-append [] rest ips h = rw (append-nil ips)
  retrieve_ips-append (p ∷ ps) rest ips h =
      retrieve_ips_cons p (ps ++ rest) ips (ground arith)
      ∙ retrieve_ips-append ps rest (ips ++ text_of p) (ground arith)
      ∙ ap (retrieve_ips inet_ntop rest) (append_assoc ips (text_of p) (outside_texts ps))

  -- The list is at its end, or at a device that fails.
  abbrev pub stops_at : List (Option Sockaddr) → Bool
  stops_at [] = true
  stops_at (p ∷ ps) = fails p

  stops_lem :
      (rest : List (Option Sockaddr)) (ips : List Bytes)
      → stops_at rest ≡ true
      → retrieve_ips inet_ntop rest ips ≡ ips
  unfolding retrieve_ips
  stops_lem [] ips h = refl
  stops_lem (p ∷ ps) ips h = retrieve_ips-fails p ps ips h

  -- A process that has no addresses asks for them, and takes those of version 4 other than the
  -- loopback's, in their order: of all the devices, or of those before the first whose address
  -- cannot be written.
  pub local_ips_retrieved :
      (ps rest : List (Option Sockaddr))
      → none_fails ps ≡ true
      → stops_at rest ≡ true
      → srs_get_local_ipv4_ips inet_ntop (some (ps ++ rest)) [] ≡ outside_texts ps
  unfolding srs_get_local_ipv4_ips
  local_ips_retrieved ps rest h stop =
      retrieve_ips-append ps rest [] h ∙ stops_lem rest (outside_texts ps) stop
