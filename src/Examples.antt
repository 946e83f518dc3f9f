-- ===== src/Examples.antt =====
-- The theorems at concrete inputs, and tests of the definitions.
mod Milli
mod Missions
mod Policies
mod Services
mod Handoffs
mod Sites
mod Clearances
mod RoundTrips
