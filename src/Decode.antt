-- ===== src/Decode.antt =====
-- The instruction word, the decoder that every processor shares, and the decode stage of the
-- superscalar core.
pub mod Instruction
pub mod Decoder
pub mod Unit
pub mod Fields
pub mod RoundTrip
pub mod Bits
