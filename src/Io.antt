-- ===== src/Io.antt =====
-- The in-memory and buffered input and output of io/.
pub mod Error
pub mod Writer
pub mod Reader
pub mod Slice
pub mod Cursor
pub mod BufWriter
pub mod BufReader
pub mod LineWriter
pub mod Provided
pub mod Adapters
pub mod BufRead
