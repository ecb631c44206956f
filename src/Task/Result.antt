-- ===== src/Task/Result.antt =====
-- src/task/Result.h. The template and its specialisation for `void` are one type here, the latter
-- at `Unit`.
use npp.Common.{Option, none, some}
use npp.Common.Outcome.{Outcome, ok, throw}
use npp.Basic.Exception.{Exception}

-- `_value` and `_exception_ptr`; a null pointer is `none`.
pub record Result (A : Type 0) : Type 0 where
  pub stored : A
  pub exception_ptr : Option Exception

-- The constructor from a value.
abbrev pub of_value : {A : Type 0} → A → Result A
of_value a = record { stored = a; exception_ptr = none }

-- The constructor from an exception, which leaves `_value` default-constructed.
abbrev pub of_exception : {A : Type 0} → A → Exception → Result A
of_exception default e = record { stored = default; exception_ptr = some e }

unfoldable pub get_or_throw : {A : Type 0} → Result A → Outcome Exception A
get_or_throw r = elim r.exception_ptr [ none ↦ ok r.stored | some e ↦ throw e ]
