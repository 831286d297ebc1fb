-- ===== src/M3u8.antt =====
-- internal/parser/m3u8: playlist files. Lines splits a file, Decoder reads it, Encoder writes it.
pub mod Lines
pub mod Decoder
pub mod Reading
pub mod Encoder
pub mod Attrs
pub mod Extinf
pub mod Tagged
pub mod Lined
pub mod Printed
pub mod Written
pub mod RoundTrip
pub mod Tests
