-- ===== src/Background.antt =====
-- The scripts under scripts/background_tcp_simulation, which load the network while the nodes run:
-- their start on the nodes (Deploy), the streams of iperf3 (Iperf), and the connections of the
-- simulation (Sim).
pub mod Deploy
pub mod Iperf
pub mod Sim
