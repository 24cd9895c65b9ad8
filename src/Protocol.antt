-- ===== src/Protocol.antt =====
-- include/Protocol.h: the wire format of replies, both ways. `Count` has the numbers in it, `Tag` the
-- tags and their decoding, `Encode` the encoding.
pub mod Count
pub mod Tag
pub mod Encode
