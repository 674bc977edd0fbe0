-- ===== src/Rename.antt =====
-- Register renaming: superscalar/core/rename and superscalar/core/issue/PhysicalRegisterFile.hpp.
pub mod FreeList
pub mod AliasTable
pub mod RegisterFile
pub mod Bundle
pub mod Renamer
pub mod Conserve
pub mod TwoWide
