-- ===== src/Tests.antt =====
-- Concrete runs: a world in memory and the objects of a small cluster.
mod Memory
mod Laws
mod Cluster
mod Servers
mod Clients
mod Events
mod Passes
mod Removals
mod Texts
mod Starts
mod Endings
mod Rotations
mod Runs
mod Progress
