-- ===== src/Tests/LoggerRuns.antt =====
-- Runs of src/basic/Logger.cpp.
use npp.Common.{◌≡◌, refl, true, some}
use npp.Basic.Backtrace.{codes}
use npp.Basic.FileName.{file_name}
use npp.Basic.Logger.{
  Logger, create, info, debug, text_of, print_texts, join, Stream, start, lock, write, Reach, here,
  next, locks, writes,
}
use npp.Basic.Logger.Lines.{IsWhole, Reach-IsWhole}

abbrev logger : Logger
logger = create (codes "npp ") true

whole_line :
    join (print_texts logger (codes "12:00:00") (text_of (info (codes "ok"))))
    ≡ codes "npp [12:00:00][INFO] ok\n"
unfolding print_texts text_of create
whole_line = refl

debug_text :
    text_of (debug (some (codes "a/b.c")) (codes "7") (codes "x")) ≡ codes "[DEBUG] b.c:7 x"
unfolding text_of file_name
debug_text = refl

-- The second thread does not get the lock, and the first one goes on.
abbrev contended : Stream
contended = write (
    lock (write (lock start logger (codes "12:00:00") (info (codes "ok")))) logger
      (codes "12:00:01") (info (codes "no")))

Reach-contended : Reach start contended
Reach-contended =
    next
      (next
        (next (next here (locks logger (codes "12:00:00") (info (codes "ok")) refl)) (writes refl))
        (locks logger (codes "12:00:01") (info (codes "no")) refl))
      (writes refl)

Reach-IsWhole_example : IsWhole contended
Reach-IsWhole_example = Reach-IsWhole Reach-contended
