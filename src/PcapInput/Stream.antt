-- ===== src/PcapInput/Stream.antt =====
-- `PcapSource::next_packet` of src/pcap_input.rs, and the packets of a whole stream. What the readers
-- of the pcap-file crate give is an explicit sequence: a packet or an error for classic pcap, and for
-- pcapng a block, with the interfaces that the reader knows by then, or an error.
use tlscap.Prelude.{
  ℕ, zero, suc, ◌+◌, ◌<◌, ◌≡◌, refl, ap, Option, none, some, List, [], ◌∷◌, length, get_elem?,
  arith,
}
use tlscap.PcapInput.{DataLink, ethernet}
use tlscap.PcapInput.Timestamp.{correct_epb_timestamp}

pub record RawPacket : Type 0 where
  pub index : ℕ
  pub data' : List ℕ
  pub timestamp : ℕ

pub data InterfaceOption : Type 0 where
  if_tsresol : ℕ → InterfaceOption
  other_option : InterfaceOption

pub record Interface : Type 0 where
  pub linktype : DataLink
  pub options : List InterfaceOption

-- The timestamp is the raw tick count, read as nanoseconds.
pub data NextBlock : Type 0 where
  enhanced_packet : ℕ → List ℕ → ℕ → List Interface → NextBlock
  other_block block_error : NextBlock

pub data NextPcap : Type 0 where
  pcap_packet : List ℕ → ℕ → NextPcap
  pcap_error : NextPcap

pub data PcapSource : Type 0 where
  pcap_source : List NextPcap → DataLink → PcapSource
  pcap_ng_source : List NextBlock → PcapSource

pub data NextPacket : Type 0 where
  packet : RawPacket → DataLink → NextPacket
  eof error : NextPacket

-- `find_map` of the option `if_tsresol`
abbrev find_tsresol : List InterfaceOption → Option ℕ
find_tsresol [] = none
find_tsresol (if_tsresol v ∷ options) = some v
find_tsresol (other_option ∷ options) = find_tsresol options

abbrev link_type_of : Option Interface → DataLink
link_type_of none = ethernet
link_type_of (some i) = i.linktype

abbrev tsresol_option : Option Interface → Option ℕ
tsresol_option none = none
tsresol_option (some i) = find_tsresol i.options

pub block_packet : ℕ → ℕ → List ℕ → ℕ → List Interface → NextPacket
block_packet index interface_id bytes ticks interfaces =
    let interface = get_elem? interfaces interface_id in
    packet
      (record {
        index = index;
        data' = bytes;
        timestamp = correct_epb_timestamp ticks (tsresol_option interface);
      })
      (link_type_of interface)

-- The loop over the blocks.
pub next_block_packet : ℕ → List NextBlock → NextPacket × List NextBlock
next_block_packet index [] = (eof, [])
next_block_packet index (block_error ∷ blocks) = (error, blocks)
next_block_packet index (other_block ∷ blocks) = next_block_packet index blocks
next_block_packet index (enhanced_packet interface_id bytes ticks interfaces ∷ blocks) =
    (block_packet index interface_id bytes ticks interfaces, blocks)

pub next_packet : ℕ → PcapSource → NextPacket × PcapSource
next_packet index (pcap_source [] link_type) = (eof, pcap_source [] link_type)
next_packet index (pcap_source (pcap_error ∷ rest) link_type) = (error, pcap_source rest link_type)
next_packet index (pcap_source (pcap_packet bytes timestamp ∷ rest) link_type) = (
  packet (record { index = index; data' = bytes; timestamp = timestamp }) link_type,
  pcap_source rest link_type,
)
next_packet index (pcap_ng_source blocks) =
    let (next, rest) = next_block_packet index blocks in (next, pcap_ng_source rest)

-- The loop of `run` in src/main.rs over the packets: it ends at the end of the stream and at an error.
-- It takes a round for each packet.
abbrev after_next : NextPacket → List (RawPacket × DataLink) → List (RawPacket × DataLink)
after_next (packet raw link_type) rest = (raw, link_type) ∷ rest
after_next eof rest = []
after_next error rest = []

pub read_packets : ℕ → ℕ → PcapSource → List (RawPacket × DataLink)
read_packets zero packet_index source = []
read_packets (suc fuel) packet_index source =
    let (next, source') = next_packet packet_index source in
    after_next next (read_packets fuel (packet_index + 1) source')

-- The packets of a sequence of blocks up to an error, numbered one after the other.
pub block_packets : ℕ → List NextBlock → List (RawPacket × DataLink)
block_packets index [] = []
block_packets index (block_error ∷ blocks) = []
block_packets index (other_block ∷ blocks) = block_packets index blocks
block_packets index (enhanced_packet interface_id bytes ticks interfaces ∷ blocks) =
    after_next (block_packet index interface_id bytes ticks interfaces)
      (block_packets (index + 1) blocks)

-- The loop of `run` gets every packet of a pcapng stream up to the first error, and only these, each
-- once and in their order, numbered one after the other: blocks of other kinds between them neither
-- end the stream nor take a number. Enough fuel is one more than there are blocks.
pub read_packets-block_packets :
    (fuel index : ℕ) (blocks : List NextBlock)
    → length blocks < fuel
    → read_packets fuel index (pcap_ng_source blocks) ≡ block_packets index blocks
unfolding read_packets block_packets next_packet next_block_packet
read_packets-block_packets zero index blocks h = absurd (omega arith)
read_packets-block_packets (suc fuel) index [] h = refl
read_packets-block_packets (suc fuel) index (block_error ∷ blocks) h = refl
read_packets-block_packets (suc fuel) index (other_block ∷ blocks) h =
    read_packets-block_packets (suc fuel) index blocks (omega arith)
read_packets-block_packets (suc fuel) index
      (enhanced_packet interface_id bytes ticks interfaces ∷ blocks) h =
    ap (after_next (block_packet index interface_id bytes ticks interfaces))
      (read_packets-block_packets fuel (index + 1) blocks (omega arith))
