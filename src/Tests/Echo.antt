-- ===== src/Tests/Echo.antt =====
-- Runs of the echo test, and the theorems at some of them.
use frugal_leader_election.Base.{ℕ, ◌^◌}
use frugal_leader_election.Base.{◌+◌, ◌-◌, ◌≡◌, refl, arith, none, some, [], ◌∷◌, codes}
use frugal_leader_election.Echo.Packet.{
  Bytes, Packed, pack, packet, reply, read_id, and_then, packet_bounds, read_id-reply-packet,
}
use frugal_leader_election.Echo.Session
use frugal_leader_election.Base.{◌++◌, ltb}
use frugal_leader_election.Base.Dict.{contains}
use frugal_leader_election.Base.Equality.{nat_eq}
use frugal_leader_election.Echo.Session.Counts.{packets}
use frugal_leader_election.Echo.Session.Once.{
  one_if, times_of, replies, noted_at, differences, hand, measured-once,
}
use frugal_leader_election.Echo.Multi
use frugal_leader_election.Echo.Multi.Sessions.{session_of, Reach-sessions}

packet_bounds_example : Packed 1400 258 (packet 1400 258)
packet_bounds_example = packet_bounds 1400 258

-- The first number without a packet
packet_test : packet 1400 (2 ^ 32) ≡ none
unfolding packet pack
packet_test = refl

read_id-reply-packet_example : and_then (and_then (packet 1400 258) reply) read_id ≡ some 258
read_id-reply-packet_example = read_id-reply-packet 1400 258 (omega arith)

-- The reply to packet 0
abbrev zero_reply : Bytes
zero_reply = 0 ∷ 0 ∷ 0 ∷ 0 ∷ []

-- Packet 0 is noted at 5, sent, and its reply is read at 8.
abbrev replied : Session.Session ◌-◌
replied =
    Session.receive ◌-◌ zero_reply 8 (Session.sent ◌-◌ (Session.note ◌-◌ 5 (Session.start ◌-◌)))

replied-Reach : Session.Reach ◌-◌ replied
replied-Reach =
    Session.later
      (Session.later (Session.later Session.here (Session.noting 5 refl))
        (Session.sending refl (omega arith)))
      (Session.receiving zero_reply 8 refl)

replied_test : (replied.pending ≡ some 3) × (replied.send_times ≡ [])
unfolding read_id
replied_test = (refl, refl)

measured-once_example :
    ((id : ℕ)
      → times_of ◌-◌ id (replies ◌-◌ replied-Reach) + one_if (contains id replied.send_times)
        ≡ one_if (ltb id (packets ◌-◌ replied)))
    × (differences ◌-◌ (replies ◌-◌ replied-Reach) ≡ replied.rtts ++ hand ◌-◌ replied.pending)
measured-once_example = measured-once ◌-◌ replied replied-Reach

replies_test : replies ◌-◌ replied-Reach ≡ (0, 3) ∷ []
unfolding replies noted_at replied-Reach read_id
replies_test = refl

-- A packet to one server, and a reply with its number from another.
abbrev crossed : Multi.Tables ◌-◌
crossed =
    Multi.receive ◌-◌ (codes "10.0.5.2") zero_reply 8
      (Multi.note ◌-◌ (codes "10.0.4.2") 5 (Multi.start ◌-◌))

crossed-Reach : Multi.Reach ◌-◌ crossed
crossed-Reach =
    Multi.later (Multi.later Multi.here (Multi.noting (codes "10.0.4.2") 5 refl refl))
      (Multi.receiving (codes "10.0.5.2") zero_reply 8 refl)

crossed_test : crossed.pending ≡ none
unfolding read_id
crossed_test = refl

Reach-sessions_example : Session.Reach ◌-◌ (session_of ◌-◌ (codes "10.0.4.2") crossed)
Reach-sessions_example = Reach-sessions ◌-◌ (codes "10.0.4.2") crossed crossed-Reach
