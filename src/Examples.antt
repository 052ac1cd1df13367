-- ===== src/Examples.antt =====
-- Concrete inputs at which the theorems apply, a file for each part.
mod Moves
mod Keys
mod Installations
mod Worker
mod Attempts
mod Enrollments
mod Zones
mod Releases
mod Polls
