-- ===== src/Memory/Chain.antt =====
-- What a list of nodes stands for, and how it survives changes elsewhere.
mod Defs
mod Frame
pub use Defs.*
pub use Frame.*
