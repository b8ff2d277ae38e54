-- ===== src/PcapInput/Payload.antt =====
-- Where the payload of a parsed frame lies.
use tlscap.Prelude.{
  ℕ, ◌+◌, ◌≤◌, ◌≡◌, refl, subst, Option, none, some, List, ltb, length, drop, length-drop,
  Bool-cases, inl, inr, arith,
}
use tlscap.Orchestrator.{IpAddr}
use tlscap.Orchestrator.Frames.{TcpFrame}
use tlscap.PcapInput.{
  DataLink, ethernet, linux_sll, linux_sll2, raw, null, loop, other, TcpSlice, TransportSlice, tcp,
  other_transport, SlicedPacket, tcp_frame, net_addresses, sliced_frame, behind_header,
  parse_tcp_frame,
}

-- The payload that a parser finds lies in the slice that it was given.
unfoldable pub Inside : (List ℕ → Option SlicedPacket) → Type 0
Inside parse =
    (bytes : List ℕ) (sliced : SlicedPacket) (t : TcpSlice)
    → parse bytes ≡ some sliced
    → sliced.transport ≡ some (tcp t)
    → t.payload_at + t.payload_len ≤ length bytes

-- The range is in order and in the packet.
pub record InPacket (data' : List ℕ) (frame : TcpFrame) : Type 0 where
  pub order : frame.payload_range.start ≤ frame.payload_range.end
  pub inside : frame.payload_range.end ≤ length data'

-- What is to be shown of an outcome: a frame's payload lies in the packet.
abbrev Located : List ℕ → Option TcpFrame → Type 0
Located data' none = Unit {0}
Located data' (some frame) = InPacket data' frame

tcp_frame-Located :
    (base_offset : ℕ) (data' : List ℕ) (ips : Option (IpAddr × IpAddr))
    (transport : Option TransportSlice)
    → ((t : TcpSlice)
        → transport ≡ some (tcp t)
        → base_offset + (t.payload_at + t.payload_len) ≤ length data')
    → Located data' (tcp_frame base_offset ips transport)
tcp_frame-Located base_offset data' none transport h = tt
tcp_frame-Located base_offset data' (some ips) none h = tt
tcp_frame-Located base_offset data' (some ips) (some other_transport) h = tt
tcp_frame-Located base_offset data' (some ips) (some (tcp t)) h =
    let bound = h t refl in record { order = omega arith; inside = omega arith }

sliced_frame-Located :
    (base_offset : ℕ) (data' : List ℕ) (o : Option SlicedPacket)
    → ((sliced : SlicedPacket) (t : TcpSlice)
        → o ≡ some sliced
        → sliced.transport ≡ some (tcp t)
        → base_offset + (t.payload_at + t.payload_len) ≤ length data')
    → Located data' (sliced_frame base_offset o)
sliced_frame-Located base_offset data' none h = tt
sliced_frame-Located base_offset data' (some sliced) h =
    tcp_frame-Located base_offset data' (net_addresses sliced.net) sliced.transport
      (λ t e. h sliced t refl e)

module _ (from_ethernet from_ip : List ℕ → Option SlicedPacket) where
  behind_header-Located :
      (header_len : ℕ) (data' : List ℕ)
      → Inside from_ip
      → Located data' (behind_header from_ethernet from_ip header_len data')
  unfolding Inside
  behind_header-Located header_len data' law = elim (Bool-cases (ltb (length data') header_len)) [
    | inl e ↦ rw e tt
    | inr e ↦
        let long : header_len ≤ length data' = ground arith in
        let cut = length-drop header_len data' in
        rw e (
          sliced_frame-Located header_len data' (from_ip (drop header_len data'))
            (λ sliced t is there. omega (arith, law (drop header_len data') sliced t is there)))
  ]

  parse_tcp_frame-Located :
      (link_type : DataLink) (data' : List ℕ)
      → Inside from_ethernet
      → Inside from_ip
      → Located data' (parse_tcp_frame from_ethernet from_ip link_type data')
  unfolding parse_tcp_frame Inside
  parse_tcp_frame-Located ethernet data' e i =
      sliced_frame-Located 0 data' (from_ethernet data')
        (λ sliced t is there. omega (arith, e data' sliced t is there))
  parse_tcp_frame-Located linux_sll data' e i = behind_header-Located 16 data' i
  parse_tcp_frame-Located linux_sll2 data' e i = behind_header-Located 20 data' i
  parse_tcp_frame-Located raw data' e i =
      sliced_frame-Located 0 data' (from_ip data')
        (λ sliced t is there. omega (arith, i data' sliced t is there))
  parse_tcp_frame-Located null data' e i = behind_header-Located 4 data' i
  parse_tcp_frame-Located loop data' e i = behind_header-Located 4 data' i
  parse_tcp_frame-Located (other n) data' e i = tt

  -- If the packet parser finds a payload inside the slice it is given, then the payload range of every
  -- frame that is parsed, behind whichever link header, is in order and lies in the packet's bytes.
  pub parse_tcp_frame-InPacket :
      (link_type : DataLink) (data' : List ℕ) (frame : TcpFrame)
      → Inside from_ethernet
      → Inside from_ip
      → parse_tcp_frame from_ethernet from_ip link_type data' ≡ some frame
      → InPacket data' frame
  parse_tcp_frame-InPacket link_type data' frame e i is =
      subst (λ o. Located data' o) is (parse_tcp_frame-Located link_type data' e i)
