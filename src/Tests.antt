-- ===== src/Tests.antt =====
-- Runs of the definitions at concrete inputs, and instances of the theorems.
mod Libs
mod Queue
mod Arrival
mod Stores
mod Visits
mod Collecting
mod Crawling
mod Beats
mod Startup
mod Requests
mod Service
mod Watching
mod Pages
mod Reports
