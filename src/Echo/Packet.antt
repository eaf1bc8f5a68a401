-- ===== src/Echo/Packet.antt =====
-- The datagrams of the echo test: the packet of a sender, the reply of echo_server.py, and how the
-- receiver reads it.
use frugal_leader_election.Base.{
  ℕ, ◌≤◌, Bool-cases, inl, inr, ltb→lt, zero, suc, ◌+◌, ◌-◌, ◌*◌, ◌/◌, ◌%◌, ◌^◌, ◌<◌, max, ◌≡◌,
  refl, ap, ◌∙◌, arith, lt→ltb, true, Option, none, some, List, [], ◌∷◌, ◌++◌, ltb, leb, length,
  take, All, if◌then◌else◌,
}

abbrev pub Bytes : Type 0
Bytes = List ℕ

-- `struct.pack("!I", n)`, or `none` for a `struct.error`
unfoldable pub pack : ℕ → Option Bytes
pack n =
    if ltb n (2 ^ 32)
    then some (n / 2 ^ 24 ∷ n / 2 ^ 16 % 256 ∷ n / 2 ^ 8 % 256 ∷ n % 256 ∷ [])
    else none

-- `struct.unpack("!I", data)` of four bytes
abbrev pub unpack : Bytes → Option ℕ
unpack (a ∷ b ∷ c ∷ d ∷ []) = some (((a * 256 + b) * 256 + c) * 256 + d)
unpack _ = none

-- `b'\x00' * n`
abbrev pub zeros : ℕ → Bytes
zeros zero = []
zeros (suc n) = 0 ∷ zeros n

unfoldable pub packet : (packet_size seq : ℕ) → Option Bytes
packet packet_size seq = elim (pack seq) [
  | none ↦ none
  | some id ↦ some (id ++ zeros (packet_size - 4))
]

-- The server: what it sends back for a datagram, of which it takes 2048 bytes
unfoldable pub reply : Bytes → Option Bytes
reply datagram =
    let received = take 2048 datagram in
    if leb 4 (length received) then some (take 4 received) else none

-- The receiver: the number of the packet, from the 1024 bytes of a reply that it takes
unfoldable pub read_id : Bytes → Option ℕ
read_id datagram =
    let received = take 1024 datagram in
    if ltb (length received) 4 then none else unpack (take 4 received)

-- `f` of a result that is there
abbrev pub and_then : {A B : Type 0} → Option A → (A → Option B) → Option B
and_then none f = none
and_then (some a) f = f a

length-zeros : (n : ℕ) → length (zeros n) ≡ n
length-zeros zero = refl
length-zeros (suc n) = omega (arith, length-zeros n)

abbrev pub IsBytes : Bytes → Type 0
IsBytes = All (λ b. b < 256)

zeros-IsBytes : (n : ℕ) → IsBytes (zeros n)
zeros-IsBytes zero = tt
zeros-IsBytes (suc n) = (omega arith, zeros-IsBytes n)

-- What a packet may be: a number below 2 ^ 32 has one of the size, of 4 bytes at least, whose
-- values fit into bytes, and a larger number has none.
abbrev pub Packed : (packet_size seq : ℕ) → Option Bytes → Type 0
Packed packet_size seq none = 2 ^ 32 ≤ seq
Packed packet_size seq (some bytes) =
    (seq < 2 ^ 32) × ((length bytes ≡ max 4 packet_size) × IsBytes bytes)

-- A number below 2 ^ 32 has a packet of `packet_size` bytes, of 4 at least, whose values fit into
-- bytes. A larger one has none.
pub packet_bounds : (packet_size seq : ℕ) → Packed packet_size seq (packet packet_size seq)
unfolding packet pack
packet_bounds packet_size seq = elim (Bool-cases (ltb seq (2 ^ 32))) [
  | inl b ↦
      rw (b, packet, pack)
        (
          ground (arith, b),
          (
            omega (arith, length-zeros (packet_size - 4)),
            (
              omega (arith, ltb→lt seq (2 ^ 32) b),
              (omega arith, (omega arith, (omega arith, zeros-IsBytes (packet_size - 4)))),
            ),
          ),
        )
  | inr b ↦ rw (b, packet, pack) (ground (arith, b))
]

-- The server replies to four bytes or more with the first four.
reply-four : (a b c d : ℕ) (rest : Bytes) → reply (a ∷ b ∷ c ∷ d ∷ rest) ≡ some (a ∷ b ∷ c ∷ d ∷ [])
unfolding reply
reply-four a b c d rest =
    let enough : leb 4 (suc (suc (suc (suc (length (take 2044 rest)))))) ≡ true = ground arith in
    rw (enough, reply) refl

-- The reply of the server to a packet is read back as the number of the packet, for every number
-- that has a packet and every size of it.
pub read_id-reply-packet :
    (packet_size seq : ℕ)
    → seq < 2 ^ 32
    → and_then (and_then (packet packet_size seq) reply) read_id ≡ some seq
unfolding packet pack read_id
read_id-reply-packet packet_size seq small =
    rw (lt→ltb seq (2 ^ 32) small, packet, pack)
      (ap (λ r. and_then r read_id)
          (reply-four (seq / 2 ^ 24) (seq / 2 ^ 16 % 256) (seq / 2 ^ 8 % 256) (seq % 256)
            (zeros (packet_size - 4)))
        ∙ ap some (omega arith))
