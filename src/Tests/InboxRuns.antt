-- ===== src/Tests/InboxRuns.antt =====
-- Runs of `processMessage` and `getMessage` of src/network/NetworkManager.cpp.
use npp.Common.{ℕ, ◌≡◌, refl, [], ◌∷◌, ◌++◌}
use npp.Network.Inbox.{
  Inbox, writing, ended, open_inbox, process_message, get_message, stop, test_running, Reach,
  Unread, here, next, processes, gets,
}
use npp.Network.Inbox.Handover.{IsInbox, Reach-IsInbox}
use npp.Network.Inbox.Waits.{stop_waits}

-- The second message waits, since there has been one reader only.
abbrev second_waits : Inbox ℕ
second_waits = process_message (process_message (get_message open_inbox 1) 2 70) 3 80

first_got : second_waits.got ≡ 70 ∷ []
unfolding open_inbox process_message get_message npp.Task.Channel.create
    npp.Task.Channel.try_push_reader npp.Task.Channel.try_push_writer
first_got = refl

Reach-second_waits : Reach open_inbox second_waits
Reach-second_waits =
    next (next (next here (gets 1 refl)) (processes 2 70 refl)) (processes 3 80 refl)

Reach-IsInbox_example : IsInbox second_waits
Reach-IsInbox_example = Reach-IsInbox Reach-second_waits

-- One reader has asked and got a message; the second message comes with none.
abbrev first_served : Inbox ℕ
first_served = process_message (get_message open_inbox 1) 2 70

stop_waits_example :
    (second_waits.loop ≡ writing 80)
    × ((test_running (stop second_waits)).loop ≡ writing 80)
    × ((get_message (stop second_waits) 4).got ≡ second_waits.got ++ 80 ∷ [])
    × ((test_running (get_message (stop second_waits) 4)).loop ≡ ended)
unfolding open_inbox process_message get_message npp.Task.Channel.create
    npp.Task.Channel.try_push_reader npp.Task.Channel.try_push_writer
stop_waits_example =
    stop_waits first_served second_waits 3 4 80
      (next (next here (gets 1 refl)) (processes 2 70 refl)) refl refl Unread.here
