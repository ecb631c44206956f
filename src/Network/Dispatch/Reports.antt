-- ===== src/Network/Dispatch/Reports.antt =====
-- src/network/NetworkManager.cpp: what a rank report that comes on a connection does to the table.
use npp.Common.{ℕ, ◌^◌, ◌<◌, ◌≡◌, ◌≢◌, refl, false, none, some, List, ◌++◌, ==_iff, arith}
use npp.Common.Outcome.{ok}
use npp.Network.Head.{report_frame, htons}
use npp.Network.Connection.{Connection, IsReliable}
use npp.Network.Registry.{NetworkManager, Target, find, record_report}
use npp.Network.Registry.Table.{find-insert}
use npp.Network.Dispatch.{Handled, handle_event}
use npp.Network.Dispatch.Frames.{handle-report_frame}

-- What the table says after a report of this rank and port on a connection.
pub record IsRecorded (m m' : NetworkManager) (rank port ip connfd : ℕ) : Type 0 where
  pub unknown :
      find rank m.socks ≡ none
      → find rank m'.socks
        ≡ some (record { rank = rank; ip = ip; port = htons port; sock = some connfd })
  pub known : (t : Target) → find rank m.socks ≡ some t → find rank m'.socks ≡ some t
  pub others : (other : ℕ) → rank ≢ other → find other m'.socks ≡ find other m.socks
  pub only_socks : m' ≡ record m { socks = m'.socks }

record_report-IsRecorded :
    (m : NetworkManager) (rank port ip connfd : ℕ)
    → IsRecorded m (record_report m rank ip (htons port) connfd) rank port ip connfd
unfolding record_report
record_report-IsRecorded m rank port ip connfd =
    let t : Target = record { rank = rank; ip = ip; port = htons port; sock = some connfd } in
    record {
      unknown = λ n. ground (arith, n, find-insert rank rank t m.socks, ==_iff rank rank);
      known = λ u e. ground (arith, e, find-insert rank rank t m.socks, ==_iff rank rank);
      others = λ o d. ground (arith, d, find-insert rank o t m.socks, ==_iff rank o);
      only_socks = refl;
    }

-- A rank report that a peer has sent, on a connection without errors and whose words have arrived when
-- they are read, is read to its end and hands on no message; the socket stays open. A rank that is not
-- known yet gets an entry with the reported port and this socket, and the address that `getsockname`
-- gives; a known one keeps its entry; other ranks, and all else of the manager, stay as they are.
pub handle_event-IsRecorded :
    (k : Connection) (reliable : IsReliable k) (m : NetworkManager) (s : k.State)
    (rank port ip connfd : ℕ) (rest : List ℕ)
    → rank < 2 ^ 32
    → port < 65536
    → k.incoming s ≡ report_frame rank port ++ rest
    → (h : Handled k) × (handle_event k m s ip connfd ≡ ok h)
      × (h.message ≡ none)
      × (h.is_closed ≡ false)
      × (k.incoming h.connection ≡ rest)
      × IsRecorded m h.manager rank port ip connfd
handle_event-IsRecorded k reliable m s rank port ip connfd rest r p e =
    let (s', handled, left) = handle-report_frame k reliable m s rank port ip connfd rest r p e in
    (_, handled, refl, refl, left, record_report-IsRecorded m rank port ip connfd)
