-- ===== src/Examples.antt =====
-- Concrete runs of each part, on inputs as they come from the network, a user or the file system.
mod Checksums
mod Dns
mod Panels
mod Devices
mod Threads
mod Packets
mod Requests
mod Copies
mod Sockets
mod Routes
mod Echoes
mod Setups
mod Lines
mod Drawings
