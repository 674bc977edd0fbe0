-- ===== src/Memory.antt =====
-- The memory system of the superscalar core: superscalar/core/memory/LoadStoreQueue.hpp,
-- superscalar/core/memory/data and superscalar/core/commit/StoreBuffer.hpp.
pub mod StoreBuffer
pub mod LoadStoreQueue
pub mod DataMemory
pub mod DataCache
