-- ===== src/Shared/Dict.antt =====
-- `BTreeMap` and `HashMap` as association lists in the order of their keys. No result of the
-- program depends on the order in which a `HashMap` is walked, unless a file says so.
mod Base
mod Sets
mod Sorted
mod Loop
unfoldable pub use Base.*
unfoldable pub use Sets.*
pub use Sorted.*
unfoldable pub use Loop.*
