-- ===== src/Tests.antt =====
-- The theorems at concrete inputs, and runs of the definitions that can be followed in the source.
mod Machine
mod Disk
mod Stores
mod Bitmaps
mod PlanRuns
mod Htmls
mod Commands
mod Frees
mod Plans
mod Preps
mod Runs
mod Workers
mod Configures
mod Sessions
mod Summaries
