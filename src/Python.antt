-- ===== src/Python.antt =====
-- What the program uses of Python and of the files below it: JSON values, the exceptions, paths and
-- a file system. `Float` is the arithmetic of Python floats, which is a parameter of the model.
pub mod Json
pub mod Error
pub mod Number
pub mod Files
pub mod Format
