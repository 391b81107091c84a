-- ===== src/Decode.antt =====
-- The decoders of the rectangles, one module for each group of `encoding_*.go` files.
pub mod Plain
pub mod Rre
pub mod Hextile
pub mod Inflate
pub mod Zrle
pub mod Tight
pub mod Cursors
pub mod Dispatch
