-- ===== src/PcapInput.antt =====
-- `parse_tcp_frame` of src/pcap_input.rs. The packet parser of the etherparse crate is a parameter:
-- what it finds in a slice, with the place of the TCP payload in the slice.
pub mod Payload
pub mod Timestamp
pub mod Magic
pub mod Stream
pub mod Toy
mod Examples
use tlscap.Prelude.{
  ℕ, ◌+◌, ◌≤◌, ◌≡◌, Bool, Option, none, some, List, ltb, if◌then◌else◌, length, drop,
}
use tlscap.Reassembly.{Range}
use tlscap.Orchestrator.{IpAddr, v4, v6}
use tlscap.Orchestrator.Frames.{TcpFlags, TcpFrame}

-- The link types that the code names, and the others.
pub data DataLink : Type 0 where
  ethernet linux_sll linux_sll2 raw null loop : DataLink
  other : ℕ → DataLink

-- What the parser gives: the addresses, and the TCP header with the payload's place.
pub data NetSlice : Type 0 where
  ipv4 ipv6 : ℕ → ℕ → NetSlice
  other_net : NetSlice

pub record TcpSlice : Type 0 where
  pub source_port : ℕ
  pub destination_port : ℕ
  pub sequence_number : ℕ
  pub acknowledgment_number : ℕ
  pub tcp_flags : TcpFlags
  pub payload_at : ℕ
  pub payload_len : ℕ

pub data TransportSlice : Type 0 where
  tcp : TcpSlice → TransportSlice
  other_transport : TransportSlice

pub record SlicedPacket : Type 0 where
  pub net : Option NetSlice
  pub transport : Option TransportSlice

abbrev pub linux_sll_header_len : ℕ
linux_sll_header_len = 16

abbrev pub linux_sll2_header_len : ℕ
linux_sll2_header_len = 20

abbrev pub null_loop_header_len : ℕ
null_loop_header_len = 4

abbrev addresses : NetSlice → Option (IpAddr × IpAddr)
addresses (ipv4 src dst) = some (v4 src, v4 dst)
addresses (ipv6 src dst) = some (v6 src, v6 dst)
addresses other_net = none

abbrev net_addresses : Option NetSlice → Option (IpAddr × IpAddr)
net_addresses none = none
net_addresses (some net) = addresses net

-- The frame of a slice that begins at `base_offset` of the packet's bytes.
abbrev pub tcp_frame : ℕ → Option (IpAddr × IpAddr) → Option TransportSlice → Option TcpFrame
tcp_frame base_offset none transport = none
tcp_frame base_offset (some ips) none = none
tcp_frame base_offset (some ips) (some other_transport) = none
tcp_frame base_offset (some (src_ip, dst_ip)) (some (tcp t)) =
    let payload_start = base_offset + t.payload_at in
    some (record {
      src_ip = src_ip;
      dst_ip = dst_ip;
      src_port = t.source_port;
      dst_port = t.destination_port;
      seq = t.sequence_number;
      ack_number = t.acknowledgment_number;
      flags = t.tcp_flags;
      payload_range = record { start = payload_start; end = payload_start + t.payload_len };
    })

abbrev pub sliced_frame : ℕ → Option SlicedPacket → Option TcpFrame
sliced_frame base_offset none = none
sliced_frame base_offset (some sliced) =
    tcp_frame base_offset (net_addresses sliced.net) sliced.transport

-- `LaxSlicedPacket::from_ethernet` and `from_ip`.
module _ (from_ethernet from_ip : List ℕ → Option SlicedPacket) where
  -- Behind a header of that length, which the packet may be too short for.
  abbrev pub behind_header : ℕ → List ℕ → Option TcpFrame
  behind_header header_len data' =
      if ltb (length data') header_len
      then none
      else sliced_frame header_len (from_ip (drop header_len data'))

  unfoldable pub parse_tcp_frame : DataLink → List ℕ → Option TcpFrame
  parse_tcp_frame ethernet data' = sliced_frame 0 (from_ethernet data')
  parse_tcp_frame linux_sll data' = behind_header linux_sll_header_len data'
  parse_tcp_frame linux_sll2 data' = behind_header linux_sll2_header_len data'
  parse_tcp_frame raw data' = sliced_frame 0 (from_ip data')
  parse_tcp_frame null data' = behind_header null_loop_header_len data'
  parse_tcp_frame loop data' = behind_header null_loop_header_len data'
  parse_tcp_frame (other n) data' = none
