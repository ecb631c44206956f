-- ===== src/Tests/ChannelRuns.antt =====
-- Runs of src/task/Channel.h and src/task/ChannelAwaiter.h.
use npp.Common.{ℕ, ◌≡◌, refl, true, false, none, some, List, [], ◌∷◌, inl, inr, arith}
use npp.Common.Outcome.{ok, throw, fault, Returns}
use npp.Basic.Exception.{channel_closed}
use npp.Task.Awaiter.{Awaiter, run_job, set_value, only_resume}
use npp.Task.Channel.{
  Channel, WriterAwaiter, Resume, resume_reader, resume_writer, create, close, try_push_reader,
  try_push_writer,
}
use npp.Task.Channel.Invariant.{IsValid}
use npp.Task.Channel.Logs.{perform, Call, reads, writes, run}
use npp.Task.Channel.Fifo.{InOrder, run-InOrder}
use npp.Task.Channel.Closing.{
  Reach, here, next, pushes_reader, IsClosed, Reach-IsValid, close_is_final,
}
use npp.Task.ChannelAwaiter.{ReaderAwaiter, WritingAwaiter, reader_await_resume}
use npp.Task.ChannelAwaiter.Lifecycle.{reader_gets_value, reader_after_close}
use npp.Task.ChannelAwaiter.Reentry.{
  resume_writer_inline, resume_reader_inline, close_inline_faults,
}

-- A channel of capacity 1 that two writers have filled and wait for.
abbrev busy : Channel ℕ
busy = record {
  is_active = true;
  buffer_capacity = 1;
  buffer = 10 ∷ [];
  writer_list = record { address = 2; value = 20 } ∷ [];
  reader_list = [];
}

abbrev calls : List (Call ℕ)
calls = reads 7 ∷ reads 8 ∷ reads 9 ∷ writes (record { address = 3; value = 30 }) ∷ []

run-busy :
    run busy calls
    ≡ ok (
      resume_writer 2
          ∷ resume_reader 7 10
          ∷ resume_reader 8 20
          ∷ resume_reader 9 30
          ∷ resume_writer 3
          ∷ [],
      record busy { buffer = []; writer_list = [] },
    )
unfolding run perform try_push_reader try_push_writer
run-busy = refl

busy-IsValid : IsValid busy
busy-IsValid = record { readers_wait = inl refl; writers_wait = inr refl; bounded = omega arith }

run-InOrder_example : Returns (λ p. InOrder busy calls p.0 p.1) (run busy calls)
run-InOrder_example = run-InOrder busy calls busy-IsValid refl

abbrev one_reader : Channel ℕ
one_reader = record {
  is_active = true;
  buffer_capacity = 4;
  buffer = [];
  writer_list = [];
  reader_list = 7 ∷ [];
}

Reach-one_reader : Reach (create 4) [] one_reader
unfolding create try_push_reader
Reach-one_reader = next here (pushes_reader 7 refl) [] refl

Reach-IsValid_example : IsValid one_reader
Reach-IsValid_example = Reach-IsValid 4 Reach-one_reader

close_busy : (close busy).0 ≡ resume_writer 2 ∷ []
unfolding close
close_busy = refl

close_is_final_example :
    ((close busy).0 ≡ resume_writer 2 ∷ [])
    × (◌≡◌ {A = List (Resume ℕ)} [] [])
    × IsClosed (close busy).1
    × ((reader : ℕ) → try_push_reader (close busy).1 reader ≡ throw channel_closed)
    × ((w : WriterAwaiter ℕ) → try_push_writer (close busy).1 w ≡ throw channel_closed)
    × ((close (close busy).1).0 ≡ [])
close_is_final_example = close_is_final busy refl here

abbrev reader : ReaderAwaiter ℕ
reader = record {
  awaiter = record { result = none; executor = some 1; handle = some 5 };
  address = 7;
  channel = true;
  p_value = true;
  target = none;
}

abbrev writer : WritingAwaiter ℕ
writer = record {
  awaiter = record { result = none; executor = none; handle = some 6 };
  address = 2;
  channel = true;
  value = 20;
}

abbrev closed_busy : Channel ℕ
closed_busy = record busy { is_active = false }

reader_gets_value_example :
    (a' : Awaiter ℕ) × (run_job 0 reader.awaiter (set_value 10) ≡ ok (5, a'))
    × (reader_await_resume busy (record reader { awaiter = a' })
        ≡ ok (10, record reader { awaiter = a'; channel = false; target = some 10 }))
reader_gets_value_example = reader_gets_value 0 10 busy reader 5 refl refl

reader_after_close_example :
    (a' : Awaiter ℕ) × (run_job 0 reader.awaiter only_resume ≡ ok (5, a'))
    × (reader_await_resume closed_busy (record reader { awaiter = a' }) ≡ throw channel_closed)
reader_after_close_example = reader_after_close 0 closed_busy reader 5 refl refl refl

close_inline_faults_example :
    (resume_writer_inline closed_busy writer ≡ fault)
    × (resume_reader_inline 0 closed_busy reader ≡ fault)
close_inline_faults_example =
    close_inline_faults 0 closed_busy writer reader 6 5 refl refl refl refl refl
