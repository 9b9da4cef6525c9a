-- ===== src/Codec.antt =====
-- The encodings of the Go standard library that the program uses: encoding/base64 and
-- encoding/hex.
pub mod Base64
pub mod Hex
