-- ===== src/Js.antt =====
-- The values of the language, as the codecs and the checks of untrusted input walk them.
mod Values
mod Language
pub mod Samples
pub use Values.*
pub use Language.*
unfoldable pub use Values.{property, has_own, key_count}
unfoldable pub use Language.{count, every, keys_within, assign}
