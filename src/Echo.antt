-- ===== src/Echo.antt =====
-- The echo load test under test/star_topology_load_test: what goes over the wire (Packet), one
-- sender with its receiver (Session), and the senders that share their tables (Multi).
pub mod Packet
pub mod Session
pub mod Multi
