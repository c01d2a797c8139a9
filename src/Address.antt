-- ===== src/Address.antt =====
-- The addresses in src/base/app_utility.cpp: the machine's own, and the peer's of a connection. What
-- the system answers, and `inet_ntop`, are arguments.
pub mod Endian
pub mod Local
mod Tests
use srslog.Base.{
  ℕ, Bool, true, false, ◌&&◌, not, Option, none, some, List, [], ◌∷◌, ◌++◌, ◌==◌, if◌then◌else◌,
}
use srslog.Base.Int.{ℤ}
use srslog.Bytes.{Bytes, codes, beq, empty, c_str}

abbrev pub af_inet : ℕ
af_inet = 2

abbrev pub localhost : Bytes
localhost = codes "127.0.0.1"

-- The family of a `sockaddr`, and the bytes of its address.
pub record Sockaddr : Type 0 where
  pub family : ℕ
  pub host : Bytes

module _ (inet_ntop : ℕ → Bytes → Option Bytes) where
  -- The loop over the devices; the address of one may be null.
  unfoldable pub retrieve_ips : List (Option Sockaddr) → List Bytes → List Bytes
  retrieve_ips [] ips = ips
  retrieve_ips (none ∷ ps) ips = retrieve_ips ps ips
  retrieve_ips (some a ∷ ps) ips = elim (a.family == af_inet) [
    | false ↦ retrieve_ips ps ips
    | true ↦ elim (inet_ntop a.family a.host) [
      | none ↦ ips
      | some ip ↦
          retrieve_ips ps (if not (beq (c_str ip) localhost) then ips ++ c_str ip ∷ [] else ips)
    ]
  ]

  -- The new list; `ifap` is what `getifaddrs` gives, `none` where it fails.
  unfoldable pub retrieve_local_ipv4_ips : Option (List (Option Sockaddr)) → List Bytes
  unfolding retrieve_ips
  retrieve_local_ipv4_ips none = []
  retrieve_local_ipv4_ips (some ps) = retrieve_ips ps []

  -- `ips` is the list that the process keeps.
  unfoldable pub srs_get_local_ipv4_ips : Option (List (Option Sockaddr)) → List Bytes → List Bytes
  unfolding retrieve_local_ipv4_ips
  srs_get_local_ipv4_ips ifap [] = retrieve_local_ipv4_ips ifap
  srs_get_local_ipv4_ips ifap (ip ∷ ips) = ip ∷ ips

  -- `peer` is what `getpeername` gives, `none` where it fails.
  unfoldable pub srs_get_peer_ip : Option Sockaddr → Bytes
  srs_get_peer_ip none = []
  srs_get_peer_ip (some a) = elim (inet_ntop a.family a.host) [ none ↦ [] | some ip ↦ c_str ip ]
