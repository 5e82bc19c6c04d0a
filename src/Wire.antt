-- ===== src/Wire.antt =====
-- The protobuf wire format of the builtin codecs: pj_base/src/builtin/protobuf_wire.hpp. A byte
-- vector is a list of numbers under 256, and a `Reader` is the bytes between its position and
-- its end, so that a null reader is an empty one. A read returns its value, or nothing where
-- the source returns false, and the reader that is left in both cases. The parts of a word that
-- the source joins by `|` share no bit, so they are added.
pub mod Format
pub mod Writer
pub mod Reader
pub mod Varint
pub mod Fields
pub mod Parse
pub mod Packed
pub mod Total
mod Tests
