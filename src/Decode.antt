-- ===== src/Decode.antt =====
-- Decoding RPC answers into the indexer's data: src/decode/mod.rs, erc20.rs and block.rs.
pub mod Errors
pub mod Erc20
pub mod Blocks
pub mod Laws
