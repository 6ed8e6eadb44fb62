-- ===== src/Python.antt =====
-- The parts of Python's standard library whose behaviour the program's results depend on.
pub mod Bisect
pub mod Encoding
pub mod Strings
pub mod Integers
pub mod Splits
pub mod Decimals
