-- ===== src/Tests.antt =====
-- Runs of the model on concrete inputs, and the theorems at inputs that meet their hypotheses.
mod HashMaps
mod Multimaps
mod Texts
mod Protocols
mod Servers
mod Worlds
mod Clients
mod Games
mod Files
mod Objects
mod Modules
