-- ===== src/Core/Stamp.antt =====
-- internal/core/stamp.go: the identities of the artifacts of a document. A text is a sequence of
-- characters and an offset counts them; `bytes_of` is the length in bytes where the source's offset
-- is one in another text. The matchers of the regular expressions are written out; letters that are
-- matched in either case are ASCII (Go also takes U+017F for "s" and U+212A for "k").
pub mod Patterns
pub mod Identity
pub mod Headings
pub mod Harvest
pub mod Stamping
pub mod Weaving
pub mod Places
pub mod Order
pub mod Units
