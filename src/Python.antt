-- ===== src/Python.antt =====
-- python/src: what the server keeps of the nodes that send to it.
pub mod Status
pub mod Punches
pub mod Logs
pub mod Protobufs
pub mod Addresses
pub mod Server
pub mod Meshtastic
pub mod Handler
pub mod Raspberry
