-- ===== src/Python.antt =====
-- What every component takes from Python: exceptions as values, the state and exception monad of
-- its effectful functions, integers, and `struct` (the children).
pub mod Exceptions
pub mod Exec
pub mod Int
pub mod Struct
