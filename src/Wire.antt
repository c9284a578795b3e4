-- ===== src/Wire.antt =====
-- monitor-v2/api_bridge: the protobuf wire codec of the connection API, and the frames of its stream.
pub mod Varint
pub mod Message
pub mod Events
pub mod Stream
