-- ===== src/Codec.antt =====
-- The byte codecs of the token format: Base64, PKCS#7 padding and UTF-8.
pub mod Base64
pub mod Pkcs7
pub mod Utf8
