-- ===== src/Wire.antt =====
-- protocol/protocol.go: the primitive fields of the wire format, over a reader and a writer.
-- A byte slice and a Go string are lists of bytes; an int32, uint16 or int64 is its bit pattern.
pub mod Stream
pub mod VarInt
pub mod Fields
