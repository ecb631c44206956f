-- ===== src/Network/Registry.antt =====
-- src/network/NetworkManager.h and src/network/NetworkManager.cpp: the manager's state, and the
-- table of the processes that it knows. Ports and addresses in the table are in network byte order.
pub mod Table
use npp.Common.{
  ℕ, ◌+◌, ◌*◌, ◌/◌, ◌%◌, Bool, true, false, Option, none, some, List, [], ◌∷◌, ◌==◌, if◌then◌else◌,
}
use npp.Network.Head.{htons}

-- A socket of -1 is `none`; a rank is the bit pattern of an `int`.
pub record Target : Type 0 where
  pub rank : ℕ
  pub ip : ℕ
  pub port : ℕ
  pub sock : Option ℕ

abbrev pub SockMap : Type 0
SockMap = List (ℕ × Target)

pub record NetworkManager : Type 0 where
  pub my_rank : ℕ
  pub running : Bool
  pub sockfd : Option ℕ
  pub epoll_fd : Option ℕ
  pub listen_port : ℕ
  pub socks : SockMap

unfoldable pub create : ℕ → NetworkManager
create my_rank = record {
  my_rank = my_rank;
  running = false;
  sockfd = none;
  epoll_fd = none;
  listen_port = 0;
  socks = [];
}

-- `htonl`
abbrev pub htonl : ℕ → ℕ
htonl n =
    (n % 256) * 16777216 + (((n / 256) % 256) * 65536 + (((n / 65536) % 256) * 256 + n / 16777216))

-- `find` of the map, and a change of the value that an accessor has found. `insert` leaves a key that
-- is there as it is.
unfoldable pub find : ℕ → SockMap → Option Target
find rank [] = none
find rank ((r, t) ∷ m) = if r == rank then some t else find rank m

pub change : ℕ → (Target → Target) → SockMap → SockMap
change rank f [] = []
change rank f ((r, t) ∷ m) = if r == rank then (r, f t) ∷ m else (r, t) ∷ change rank f m

unfoldable pub insert : ℕ → Target → SockMap → SockMap
unfolding find
insert rank t m = elim (find rank m) [ none ↦ (rank, t) ∷ m | some u ↦ m ]

unfoldable pub register_target : NetworkManager → ℕ → ℕ → ℕ → NetworkManager
unfolding find change insert
register_target m rank ip port = elim (find rank m.socks) [
  | some t ↦ record m {
    socks = change rank (λ u. record u { ip = htonl ip; port = htons port; sock = none }) m.socks;
  }
  | none ↦ record m {
    socks =
        insert rank (record { rank = rank; ip = htonl ip; port = htons port; sock = none }) m.socks;
  }
]

-- `registerTarget` on a name: `addresses` is what `gethostbyname` found, in host byte order, and
-- `parsed` what `inet_aton` makes of the name where it found nothing.
register_each : NetworkManager → ℕ → List ℕ → ℕ → NetworkManager
register_each m rank [] port = m
register_each m rank (ip ∷ ips) port = register_each (register_target m rank ip port) rank ips port

unfoldable pub register_name : NetworkManager → ℕ → Option (List ℕ) → ℕ → ℕ → NetworkManager
unfolding register_each register_target
register_name m rank addresses parsed port = elim addresses [
  | none ↦ register_target m rank parsed port
  | some ips ↦ register_each m rank ips port
]

unfoldable pub clear_send_socket : NetworkManager → ℕ → NetworkManager
unfolding change
clear_send_socket m rank = record m { socks = change rank (λ t. record t { sock = none }) m.socks }

-- `value->second.sock = sock`
unfoldable pub set_sock : NetworkManager → ℕ → ℕ → NetworkManager
unfolding change
set_sock m rank sock = record m { socks = change rank (λ t. record t { sock = some sock }) m.socks }

-- The end of `readRankReportMessage`, after the verify code: `ip` is what `getsockname` gives.
unfoldable pub record_report : NetworkManager → ℕ → ℕ → ℕ → ℕ → NetworkManager
unfolding insert
record_report m rank ip reserved connfd = record m {
  socks =
      insert rank (record { rank = rank; ip = ip; port = reserved; sock = some connfd }) m.socks;
}
