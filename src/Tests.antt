-- ===== src/Tests.antt =====
-- The modules below run the definitions and apply the theorems at concrete inputs.
mod Toys
mod Chunks
mod Keys
mod Stored
mod Packs
mod Workers
mod Uploads
mod Restores
mod Runs
mod Trees
mod Clients
mod Starts
mod Depths
