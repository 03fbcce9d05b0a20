-- ===== src/Files.antt =====
-- packages/python/platform_core/files.py and storage_s3.py: the metadata of files and their objects
-- in storage. A `bytes` is the list of its bytes.
mod Storage
mod Identify
mod Access
mod Cleanup
mod Results
pub mod RoundTrip
pub mod Outcome
pub mod Offered
pub mod Swept
pub mod Batch
pub mod Expiry
unfoldable pub use Storage.*
unfoldable pub use Identify.*
unfoldable pub use Access.*
unfoldable pub use Cleanup.*
unfoldable pub use Results.*
