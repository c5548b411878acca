-- ===== src/Tests.antt =====
-- Runs of the model on concrete inputs, and the theorems at such inputs.
mod Decoder
mod Queues
mod Buffers
mod Machines
mod Snapshots
mod Worlds
mod Dialing
mod Servers
mod Pages
