-- ===== src/Py.antt =====
-- The part of Python that the instrumentation's source relies on: its dynamic values, its
-- exceptions, and code that changes a state and may raise.
pub mod Value
pub mod Builtins
pub mod Exec
pub mod Dict
pub mod Wrapt
