-- ===== src/Pdf.antt =====
-- packages/python/platform_core/pdf_merge.py: the bounded merge of PDF documents.
mod Content
mod Merge
pub mod Clean
pub mod Verified
pub mod Returns
unfoldable pub use Content.*
unfoldable pub use Merge.*
