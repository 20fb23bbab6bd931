-- ===== src/Encoding.antt =====
-- The encodings of the standard library that the cursors use: encoding/base64 and the splitting
-- and joining of strings.
pub mod Base64
pub mod Parts
pub mod Json
