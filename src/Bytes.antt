-- ===== src/Bytes.antt =====
-- Bytes in memory: little-endian words, and the single bits of a byte. The host is taken to be
-- little-endian, as `std::memcpy` between words and byte buffers shows.
mod Words
mod Bits
unfoldable pub use Words.*
unfoldable pub use Bits.*
