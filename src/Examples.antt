-- ===== src/Examples.antt =====
-- The theorems at concrete inputs.
mod Controllers
mod Disks
mod Datastores
mod Attaching
mod Configs
mod Sources
mod Cdroms
mod Waiting
mod Ovfs
mod Cloning
mod Guests
mod Importing
