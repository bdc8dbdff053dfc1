-- ===== src/Examples.antt =====
-- Concrete inputs for the theorems that have binders or hypotheses.
mod Talks
mod Codes
mod Portals
mod Lamps
mod Devices
mod Frames
mod Sessions
mod Registries
mod Boards
mod Echo
mod Texts
mod Dispatches
mod Trees
mod Links
mod Connections
mod Tasks
