-- ===== src/PcapInput/Toy.antt =====
-- A packet parser for examples: a header of two bytes, and the payload behind it.
use tlscap.Prelude.{
  ℕ, ◌+◌, ◌-◌, ◌≤◌, ◌≡◌, ap, true, false, Option, none, some, List, length, ltb, if◌then◌else◌,
  Bool-cases, inl, inr, arith,
}
use tlscap.Orchestrator.Frames.{TcpFlags}
use tlscap.PcapInput.{TransportSlice, tcp, other_transport, ipv4, SlicedPacket}
use tlscap.PcapInput.Payload.{Inside}

abbrev pub flags : TcpFlags
flags = record { syn = false; fin = false; rst = false; ack = true; psh = true }

-- A header of two bytes, and the payload behind it.
abbrev toy_sliced : List ℕ → SlicedPacket
toy_sliced bytes = record {
  net = some (ipv4 1 2);
  transport = some (
      tcp (record {
        source_port = 40000;
        destination_port = 443;
        sequence_number = 7;
        acknowledgment_number = 9;
        tcp_flags = flags;
        payload_at = 2;
        payload_len = length bytes - 2;
      }));
}

unfoldable pub toy_parse : List ℕ → Option SlicedPacket
toy_parse bytes = if ltb (length bytes) 2 then none else some (toy_sliced bytes)

-- Where the payload ends that was found, if one was.
abbrev payload_end : Option TransportSlice → ℕ
payload_end none = 0
payload_end (some other_transport) = 0
payload_end (some (tcp t)) = t.payload_at + t.payload_len

abbrev sliced_end : Option SlicedPacket → ℕ
sliced_end none = 0
sliced_end (some sliced) = payload_end sliced.transport

pub toy_parse-Inside : Inside toy_parse
unfolding toy_parse Inside
toy_parse-Inside bytes sliced t is there = elim (Bool-cases (ltb (length bytes) 2)) [
  | inl e ↦ let is' = rw e at is in absurd (cc)
  | inr e ↦
      let long : 2 ≤ length bytes = ground arith in
      let is' : some (toy_sliced bytes) ≡ some sliced = rw e at is in
      omega (arith, ap sliced_end is', ap payload_end there)
]
