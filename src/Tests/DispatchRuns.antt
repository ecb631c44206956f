-- ===== src/Tests/DispatchRuns.antt =====
-- Runs of the events that src/network/NetworkManager.cpp handles, with `read` in pieces.
use npp.Common.{ℕ, ◌≡◌, refl, false, none, List, [], ◌∷◌, ◌++◌, arith}
use npp.Common.Outcome.{ok, Returns}
use npp.Network.Head.{message_frame, report_frame, htons}
use npp.Network.Connection.Chunks.{chunks, chunks-IsReliable}
use npp.Network.Registry.{create, record_report}
use npp.Network.Dispatch.Reports.{IsRecorded, handle_event-IsRecorded}
use npp.Network.Dispatch.{Handled, quiet, handle_event}
use npp.Network.Dispatch.Frames.{Delivered, handle-report_frame, handle-message_frame}

abbrev hello : List ℕ
hello = 104 ∷ 101 ∷ 108 ∷ 108 ∷ 111 ∷ 33 ∷ 33 ∷ 33 ∷ 33 ∷ 33 ∷ []

handle-report_frame_example :
    (s : List ℕ) × (handle_event (chunks 7) (create 0) (report_frame 3 8080 ++ 9 ∷ []) 16777343 5
      ≡ ok (quiet (chunks 7) (record_report (create 0) 3 16777343 (htons 8080) 5) s))
    × (s ≡ 9 ∷ [])
handle-report_frame_example =
    handle-report_frame (chunks 7) (chunks-IsReliable 7 (omega arith)) (create 0)
      (report_frame 3 8080 ++ 9 ∷ []) 3 8080 16777343 5 (9 ∷ []) (omega arith) (omega arith) refl

handle_event-IsRecorded_example :
    (h : Handled (chunks 7)) × (handle_event
        (chunks 7)
        (create 0)
        (report_frame 3 8080 ++ 9 ∷ [])
        16777343
        5
      ≡ ok h)
    × (h.message ≡ none)
    × (h.is_closed ≡ false)
    × (h.connection ≡ 9 ∷ [])
    × IsRecorded (create 0) h.manager 3 8080 16777343 5
handle_event-IsRecorded_example =
    handle_event-IsRecorded (chunks 7) (chunks-IsReliable 7 (omega arith)) (create 0)
      (report_frame 3 8080 ++ 9 ∷ []) 3 8080 16777343 5 (9 ∷ []) (omega arith) (omega arith) refl

handle-message_frame_example :
    Returns
      (Delivered (chunks 7) (create 0) hello (9 ∷ []))
      (handle_event (chunks 7) (create 0) (message_frame hello ++ 9 ∷ []) 16777343 5)
handle-message_frame_example =
    handle-message_frame (chunks 7) (chunks-IsReliable 7 (omega arith)) (create 0)
      (message_frame hello ++ 9 ∷ []) hello 16777343 5 (9 ∷ []) (omega arith) (omega arith) refl
