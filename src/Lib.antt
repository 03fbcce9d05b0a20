-- ===== src/Lib.antt =====
-- The money and order core of the digital services platform: wallets in halalas, orders of PDF
-- services, Telegram Stars, and the workers that process and deliver orders.
--
-- The program is a Telegram bot, an API and a worker over one PostgreSQL database. Each operation
-- is a coroutine on a connection; what it reads and writes is here a record of tables, `Schema.Db`.
-- The bot starts workflows and confirms orders (Workflows, Orders), which reserve halalas in a
-- wallet (Ledger) or are paid with Stars (Stars, Inbox). The worker claims jobs (Jobs) and
-- deliveries (Delivery), which settle the reservation or the Stars charge. Providers credit
-- wallets (Payments). Customers ask for other services, which administrators triage
-- (CustomRequests), or have texts summarised, which is paid with Stars and done by the bot itself
-- (Catalog, Summaries). Administrators log in (Admins) and change services (Services); the worker
-- reads and stores files (Files), merges PDFs (Pdf) and sends results (Worker). System takes the
-- calls that change wallets, orders, jobs, deliveries, charges or workflows, save the offers of
-- Summaries, as the steps of one run.
--
-- Files, and the code that they translate, in packages/python/platform_core:
--   Ledger            ledger.py: _lock_wallet, balance, _same_key, credit, reserve, settle
--   Orders            orders.py: ensure_telegram_user, confirm_order, acknowledge_delivery
--   Jobs              jobs.py: pending_jobs, claim_job, fail_job, complete_job, recover_stale_jobs
--   Delivery          delivery.py: claim_, finish_, fail_delivery, recover_stale_deliveries
--   Payments          payments.py: create_topup_intent, bind_provider_reference,
--                     apply_verified_topup, accept_verified_webhook
--   Stars             stars_payments.py: invoice payloads, offers, invoices, checkout, receipts,
--                     refunds; constants of text_summary.py
--   Inbox             stars_inbox.py: persist_payment_update, process_payment_inbox
--   Workflows         telegram_workflow.py; Workflows/Upload also telegram_uploads.py
--   CustomRequests    custom_requests.py
--   Catalog           service_catalog.py
--   Services          service_registry.py
--   Files             files.py, storage_s3.py and customer_files.py
--   Admins            admin_auth.py, login_limits.py, admin_bootstrap.py
--   Pdf               pdf_merge.py
--   Worker            processors.py; process_job, dispatch_pending and dispatch_deliveries of
--                     worker.py; apps/telegram_bot/delivery.py
--   Summaries         summary_orders.py; validate_text and validate_summary of text_summary.py
--   Schema            migrations/versions: the tables as records of the columns that are used
-- Base, Tables, Int, Text and Exec are shared: table helpers, integers, code points, and the
-- coroutines with their exceptions. Examples holds a small shop on which the theorems are tried.
--
-- How the code is represented:
--   A UUID or BIGINT identity is a natural number, `str(UUID)` is `uuid_text`, and a `str` is the
--   list of its code points. Results of `uuid4()`, the clock in seconds and the digest of hashlib
--   are arguments. Signed halalas are integers of unbounded size; other amounts and counters, which
--   a CHECK keeps at 0 or more, are natural numbers. A table is a list of rows, the newest first.
--   An exception is a constructor of `Error` for its class, with its message. `transaction` undoes
--   what a raise left; since every writer locks the rows that it tests, a transaction is one step.
--   A UNIQUE constraint that an INSERT could break raises `unique_violation`. JSONB objects are
--   lists sorted by key. Between the two transactions of `execute_summary` no other call runs in the
--   model; both read the order anew, and each is a definition of its own. The collation of
--   `ORDER BY name_ar`, `str.isalpha`, `str.lower` of a username, argon2, pypdf, the S3 client, the
--   answers of Redis and Telegram and the size of `json.dumps` are arguments. The tables of the
--   administrators and of the login counters, which no other code reads, are states of their own.
--
-- Bounds: the loop of the payment inbox has the 20 rounds of the source, recovery takes the 100
-- rows of the source, a walk over a PDF has the 100000 inspections of the source, after which it
-- raises, a dispatch has the 10 rounds of the source, and `decimal` has one unit of fuel more than
-- the number, which has no more digits than that. All other recursion is on tables or texts.
--
-- Not modelled: overflow of BIGINT columns, the triggers that forbid changes of immutable rows,
-- rows that SKIP LOCKED leaves to another transaction, network, the Lua script that Redis runs, the
-- PDF sandbox around the merge and office documents, HTTP and bot handlers, the web front end,
-- configuration, LocalSummarizer (the provider of summaries is an argument), and the advisory lock of
-- telegram_uploads.py.
pub mod Base
pub mod Tables
pub mod Int
pub mod Text
pub mod Exec
pub mod Schema
pub mod Ledger
pub mod Stars
pub mod Orders
pub mod Jobs
pub mod Delivery
pub mod System
pub mod Payments
pub mod Workflows
pub mod CustomRequests
pub mod Inbox
pub mod Catalog
pub mod Services
pub mod Files
pub mod Admins
pub mod Pdf
pub mod Worker
pub mod Summaries
pub mod Examples
