-- ===== src/Filepath.antt =====
-- What the code uses of Go's package path/filepath, on Unix: a path is cleaned through the stack of
-- its elements. `..` at the root of a rooted path is dropped.
mod Parts
mod Contain
mod Under
unfoldable pub use Contain.*
pub use Under.*
unfoldable pub use Parts.{IsPart, clean_parts, slash, dot}
pub use Parts.{All-reverse, split_on-join, IsPart-NoSlash, clean_parts-join, clean_parts-IsPart}
