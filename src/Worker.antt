-- ===== src/Worker.antt =====
-- packages/python/platform_core/worker.py and processors.py, and apps/telegram_bot/delivery.py: the
-- tasks of the worker, which run jobs and send their results.
mod Processor
mod Tasks
mod Sending
pub mod Ends
unfoldable pub use Processor.*
unfoldable pub use Tasks.*
unfoldable pub use Sending.*
