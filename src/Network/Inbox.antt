-- ===== src/Network/Inbox.antt =====
-- src/network/NetworkManager.cpp: `processMessage`, which hands a message from the loop of `run` to
-- `messageChannel`, `getMessage`, and what of `stopServer` waits for the loop.
pub mod Handover
pub mod Waits
use npp.Common.{ℕ, ◌+◌, ◌≡◌, Bool, true, false, List, [], ◌∷◌, ◌++◌, if◌then◌else◌}
use npp.Common.Outcome.{Outcome, ok, throw, abort, fault}
use npp.Basic.Exception.{Exception}
use npp.Task.Channel.{
  Channel, WriterAwaiter, Resume, resume_reader, resume_writer, resume_unsafe, try_push_reader,
  try_push_writer,
}
use npp.Task.Channel

-- The thread of the loop: in the loop, in `write_sync` waiting for its coroutine, behind the loop, or
-- left by an exception.
pub data Loop (A : Type 0) : Type 0 where
  polling : Loop A
  writing : A → Loop A
  ended : Loop A
  failed : Loop A

-- `handed_on` and `got` are records of the messages given to `processMessage` and returned by
-- `getMessage`.
pub record Inbox (A : Type 0) : Type 0 where
  pub channel : Channel A
  pub loop : Loop A
  pub running : Bool
  pub handed_on : List A
  pub got : List A

module _ {A : Type 0} where
  -- A new manager, with the default capacity of a channel.
  unfoldable pub open_inbox : Inbox A
  open_inbox = record {
    channel = Channel.create 0;
    loop = polling;
    running = true;
    handed_on = [];
    got = [];
  }

  -- What resumed readers return, and whether a writer is among the resumed: the only writer is the one
  -- of `write_sync`.
  abbrev pub messages_of : List (Resume A) → List A
  messages_of [] = []
  messages_of (resume_reader r v ∷ rs) = v ∷ messages_of rs
  messages_of (resume_writer w ∷ rs) = messages_of rs
  messages_of (resume_unsafe r ∷ rs) = messages_of rs

  abbrev pub resumes_writer : List (Resume A) → Bool
  resumes_writer [] = false
  resumes_writer (resume_reader r v ∷ rs) = resumes_writer rs
  resumes_writer (resume_writer w ∷ rs) = true
  resumes_writer (resume_unsafe r ∷ rs) = resumes_writer rs

  -- The loop goes on once its writer is resumed.
  abbrev pub proceed : Loop A → Bool → Loop A
  proceed l true = polling
  proceed l false = l

  abbrev pub after_call : Inbox A → Outcome Exception (List (Resume A) × Channel A) → Inbox A
  after_call s (ok (rs, c)) = record s {
    channel = c;
    loop = proceed s.loop (resumes_writer rs);
    got = s.got ++ messages_of rs;
  }
  after_call s (throw e) = record s { loop = failed }
  after_call s abort = record s { loop = failed }
  after_call s fault = record s { loop = failed }

  -- `processMessage`: `writer` is the address of the awaiter in the coroutine of `write_sync`.
  unfoldable pub process_message : Inbox A → ℕ → A → Inbox A
  process_message s writer content = elim s.loop [
    | polling ↦
        let s' = record s { loop = writing content; handed_on = s.handed_on ++ content ∷ [] } in
        after_call s' (try_push_writer s.channel (record { address = writer; value = content }))
    | writing c ↦ s
    | ended ↦ s
    | failed ↦ s
  ]

  -- `getMessage` of a client's thread.
  unfoldable pub get_message : Inbox A → ℕ → Inbox A
  get_message s reader = after_call s (try_push_reader s.channel reader)

  -- The test of the loop, and the store of `stopServer` before it waits for the loop to end.
  unfoldable pub test_running : Inbox A → Inbox A
  test_running s = elim s.loop [
    | polling ↦ if s.running then s else record s { loop = ended }
    | writing c ↦ s
    | ended ↦ s
    | failed ↦ s
  ]

  unfoldable pub stop : Inbox A → Inbox A
  stop s = record s { running = false }

  pub data Step (s t : Inbox A) : Type 0 where
    processes : (writer : ℕ) (content : A) → t ≡ process_message s writer content → Step s t
    gets : (reader : ℕ) → t ≡ get_message s reader → Step s t
    tests : t ≡ test_running s → Step s t
    stops : t ≡ stop s → Step s t

  pub data Reach (s : Inbox A) : Inbox A → Type 0 where
    here : Reach s s
    next : {t u : Inbox A} → Reach s t → Step t u → Reach s u

  -- The steps without a `getMessage`.
  pub data Unread (s : Inbox A) : Inbox A → Type 0 where
    here : Unread s s
    processes :
        {t : Inbox A} (writer : ℕ) (content : A)
        → Unread s t
        → Unread s (process_message t writer content)
    tests : {t : Inbox A} → Unread s t → Unread s (test_running t)
    stops : {t : Inbox A} → Unread s t → Unread s (stop t)
