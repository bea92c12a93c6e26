-- ===== src/Python.antt =====
-- What the program uses of Python itself: exceptions, dictionaries, texts and `string.Template`.
pub mod Result
pub mod Dict
pub mod Text
pub mod Int
pub mod Template
pub mod Json
pub mod Exec
