-- ===== src/Tests.antt =====
-- Runs of the models of src/famepy on concrete inputs.
mod Samples
mod Sessions
mod Listings
mod Objects
mod Commands
mod Texts
mod Data
mod Bridge
