-- ===== src/Base/Text.antt =====
-- Rust texts as lists of Unicode scalar values, with the `str` methods that the program calls.
-- A byte offset into a text is a split of the list; `len()` is the length of the UTF-8 form.
mod Laws
mod Cut
unfoldable pub use Cut.*
pub use Laws.*
