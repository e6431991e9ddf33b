-- ===== src/Btree.antt =====
-- What all B+Trees share (src/lib/btree.c): the header of a tree and the allocation of its nodes.
mod Struct
pub mod Header
pub mod Nodes
pub use Struct.*
