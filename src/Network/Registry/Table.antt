-- ===== src/Network/Registry/Table.antt =====
-- src/network/NetworkManager.cpp: what the table of targets says after each change of it.
use npp.Common.{
  ℕ, ◌≡◌, refl, none, some, [], ◌∷◌, ◌==◌, ==_iff, if◌then◌else◌, arith, Option-cases, inl, inr,
}
use mathlib.Core.Option
use npp.Network.Head.{htons}
use npp.Network.Registry.{
  Target, SockMap, NetworkManager, htonl, find, change, insert, register_target, clear_send_socket,
  set_sock, record_report,
}

pub find-change :
    (rank other : ℕ) (f : Target → Target) (m : SockMap)
    → find other (change rank f m)
      ≡ (if rank == other then Option.map f (find other m) else find other m)
unfolding find change
find-change rank other f [] = ground arith
find-change rank other f ((r, t) ∷ m) = ground (arith, find-change rank other f m)

pub find-insert :
    (rank other : ℕ) (t : Target) (m : SockMap)
    → find other (insert rank t m)
      ≡ (if rank == other then some (Option.get_or (find rank m) t) else find other m)
unfolding find insert
find-insert rank other t m = ground (arith, ==_iff rank other)

-- Each entry stands under its rank.
abbrev pub IsKeyed : NetworkManager → Type 0
IsKeyed m = (r : ℕ) (t : Target) → find r m.socks ≡ some t → t.rank ≡ r

-- The entry that `registerTarget` leaves.
abbrev pub registered : ℕ → ℕ → ℕ → Target
registered rank ip port = record { rank = rank; ip = htonl ip; port = htons port; sock = none }

-- `registerTarget` sets the address of the rank, in network byte order and with no socket, whether
-- the rank was known or not, and leaves the other ranks alone.
pub find-register_target :
    (m : NetworkManager) (rank other ip port : ℕ)
    → IsKeyed m
    → find other (register_target m rank ip port).socks
      ≡ (if rank == other then some (registered rank ip port) else find other m.socks)
unfolding register_target
find-register_target m rank other ip port keyed = elim (Option-cases (find rank m.socks)) [
  | inl n ↦ ground (arith, n, ==_iff rank other)
  | inr (t, e) ↦ ground (
    arith,
    e,
    keyed rank t e,
    ==_iff rank other,
    find-change rank other (λ u. record u { ip = htonl ip; port = htons port; sock = none })
        m.socks,
  )
]

change-keyed :
    (socks : SockMap) (rank : ℕ) (f : Target → Target)
    → ((u : Target) → (f u).rank ≡ u.rank)
    → ((r : ℕ) (t : Target) → find r socks ≡ some t → t.rank ≡ r)
    → (r : ℕ) (t : Target) → find r (change rank f socks) ≡ some t
    → t.rank ≡ r
change-keyed socks rank f same keyed r t e = elim (Option-cases (find r socks)) [
  | inl n ↦ ground (arith, n, e, find-change rank r f socks)
  | inr (u, h) ↦ ground (arith, h, e, find-change rank r f socks, keyed r u h, same u)
]

-- Every change of the table keeps each entry under its rank.
pub updates-IsKeyed :
    (m : NetworkManager) (rank ip port reserved fd : ℕ)
    → IsKeyed m
    → IsKeyed (register_target m rank ip port)
      × IsKeyed (clear_send_socket m rank)
      × IsKeyed (set_sock m rank fd)
      × IsKeyed (record_report m rank ip reserved fd)
unfolding clear_send_socket set_sock record_report
updates-IsKeyed m rank ip port reserved fd keyed = (
  (λ r t e.
      ground (arith, e, find-register_target m rank r ip port keyed, ==_iff rank r, keyed r t)),
  change-keyed m.socks rank (λ u. record u { sock = none }) (λ u. refl) keyed,
  change-keyed m.socks rank (λ u. record u { sock = some fd }) (λ u. refl) keyed,
  λ r t e. ground (arith, e, ==_iff rank r, keyed r t),
)
