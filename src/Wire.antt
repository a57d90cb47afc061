-- ===== src/Wire.antt =====
-- The wire format of protocol buffers, as the generated files of x/schedule/types write and read
-- it. Each of those files has its own copy of the same helpers; the model takes those of
-- schedule.pb.go.
pub mod Varint
pub mod Groups
pub mod Sov
pub mod Buffer
pub mod Written
pub mod Reader
pub mod Progress
pub mod Nested
pub mod RoundTrip
