-- ===== src/Tests.antt =====
-- Runs of the model on the cases of the source's tests, and the theorems at concrete inputs.
mod Evidence
mod Instances
mod Configurations
mod Labels
mod Hosts
mod Members
mod Uploads
mod Rankings
mod Edits
mod Submissions
mod Requests
mod Chunks
mod Listings
mod Presets
mod Staff
mod Tables
mod Servers
mod Backends
mod Histories
mod Stores
mod Pages
