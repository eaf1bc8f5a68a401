-- ===== src/Background/Iperf/Streams.antt =====
-- The client of each pair of nodes meets a server of its own.
use frugal_leader_election.Base.{List}
use mathlib.Core.List.{Memᴰ}
use frugal_leader_election.Base.Equality.{nat_eq}
