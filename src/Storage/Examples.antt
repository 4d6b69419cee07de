-- ===== src/Storage/Examples.antt =====
-- The repository's theorems at concrete rows, and runs of its methods.
pub mod Data
mod Methods
mod Listings
