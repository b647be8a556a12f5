-- ===== src/Scheduler.antt =====
-- The closed-loop request generator, orchestrator/scheduler.py.
pub mod World
pub mod Handle
pub mod Load
pub mod Segments
pub mod Flight
pub mod Ledger
pub mod Counted
pub mod Booked
pub mod Numbered
pub mod Logged
pub mod Passes
pub mod Lost
pub mod Late
pub mod Shrinking
pub mod Lighter
pub mod Flights
pub mod Within
pub mod Offers
pub mod Cap
