-- ===== src/Basic/Exception.antt =====
-- src/basic/Exception.h, and the exceptions that other files declare.
use npp.Common.{ℕ, Bool, true, false}

-- The exceptions that the program throws, and `std::system_error`. `user` is an exception of a
-- client that is a `std::exception`, `foreign` a thrown object that is not.
pub data Exception : Type 0 where
  range_exception runtime_exception signal_exception send_error channel_closed system_error :
      Exception
  user : ℕ → Exception
  foreign : ℕ → Exception

-- Whether a handler `catch (std::exception &)` takes it.
abbrev pub is_std : Exception → Bool
is_std (foreign n) = false
is_std _ = true
