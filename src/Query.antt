-- ===== src/Query.antt =====
-- pkg/repositories/filesquery/builder.go: the listing and search of files, page by page.
pub mod Condition
pub mod Cursor
pub mod Builder
pub mod Order
pub mod Pages
pub mod Filter
pub mod Listing
pub mod NextPage
pub mod Owner
mod Examples
