-- ===== src/Services.antt =====
-- packages/python/platform_core/service_registry.py: the audited configuration of categories and
-- services. The identifiers that `uuid4` makes are arguments.
mod Entry
mod Create
mod Update
mod Writes
pub mod Changes
unfoldable pub use Entry.*
unfoldable pub use Create.*
unfoldable pub use Update.*
