-- ===== src/Tests.antt =====
-- The theorems at concrete inputs: queues, requests, workers, runs, pages, engines and statuses.
mod Values
mod Queues
mod Servers
mod Documents
mod Pages
mod Workers
mod Statuses
mod Engines
