-- ===== src/PcapInput/Examples.antt =====
-- The theorems on the packet input, at a parser of one fixed header and a reader of one byte at a time.
use tlscap.Prelude.{ℕ, ◌*◌, ◌/◌, ◌^◌, ◌≡◌, refl, Option, none, some, List, [], ◌∷◌, inl, arith}
use tlscap.Orchestrator.{v4}
use tlscap.Orchestrator.Frames.{TcpFrame}
use tlscap.PcapInput.{null, linux_sll2, parse_tcp_frame}
use tlscap.PcapInput.Toy.{flags, toy_parse, toy_parse-Inside}
use tlscap.PcapInput.Payload.{InPacket, parse_tcp_frame-InPacket}
use tlscap.PcapInput.Timestamp.{
  correct_epb_timestamp, ticks_per_second, correct_epb_timestamp-exact, correct_epb_timestamp-finer,
}
use tlscap.PcapInput.Magic.{
  fill, Reads, ReadOk, Loaded, fill-Loaded, open_reader, opened, pcap_ng, detect,
}
use tlscap.PcapInput.Stream.{NextBlock, enhanced_packet, other_block, block_error, if_tsresol}

abbrev toy_frame : TcpFrame
toy_frame = record {
  src_ip = v4 1;
  dst_ip = v4 2;
  src_port = 40000;
  dst_port = 443;
  seq = 7;
  ack_number = 9;
  flags = flags;
  payload_range = record { start = 6; end = 9 };
}

parse_tcp_frame-InPacket_example : InPacket (0 ∷ 0 ∷ 0 ∷ 2 ∷ 5 ∷ 6 ∷ 7 ∷ 8 ∷ 9 ∷ []) toy_frame
unfolding parse_tcp_frame toy_parse
parse_tcp_frame-InPacket_example =
    parse_tcp_frame-InPacket toy_parse toy_parse null (0 ∷ 0 ∷ 0 ∷ 2 ∷ 5 ∷ 6 ∷ 7 ∷ 8 ∷ 9 ∷ [])
      toy_frame toy_parse-Inside toy_parse-Inside refl

read_one : ℕ → List ℕ → Option (List ℕ) × List ℕ
read_one n [] = (some [], [])
read_one n (b ∷ bs) = (some (b ∷ []), bs)

read_one-Reads : Reads read_one (λ s. s)
unfolding read_one Reads ReadOk
read_one-Reads n [] h = record { front = refl; at_most = omega arith; progress = λ e. refl }
read_one-Reads n (b ∷ bs) h = record {
  front = refl;
  at_most = omega arith;
  progress = λ e. absurd (cc);
}

fill-Loaded_example :
    Loaded read_one
      (λ s. s)
      (0x0a ∷ 0x0d ∷ 0x0d ∷ 0x0a ∷ 1 ∷ 2 ∷ [])
      (fill read_one 4 [] (0x0a ∷ 0x0d ∷ 0x0d ∷ 0x0a ∷ 1 ∷ 2 ∷ []))
fill-Loaded_example =
    fill-Loaded read_one (λ s. s) read_one-Reads (0x0a ∷ 0x0d ∷ 0x0d ∷ 0x0a ∷ 1 ∷ 2 ∷ [])

open_reader_test :
    open_reader read_one (0x0a ∷ 0x0d ∷ 0x0d ∷ 0x0a ∷ 1 ∷ 2 ∷ [])
    ≡ opened pcap_ng (0x0a ∷ 0x0d ∷ 0x0d ∷ 0x0a ∷ []) (1 ∷ 2 ∷ [])
unfolding open_reader fill read_one detect
open_reader_test = refl

correct_epb_timestamp-exact_example :
    correct_epb_timestamp 1_700_000_000_123_456 none
    ≡ 1_700_000_000_123_456 * 1_000_000_000 / ticks_per_second none
correct_epb_timestamp-exact_example =
    correct_epb_timestamp-exact 1_700_000_000_123_456 none (omega arith) (inl (omega arith))

-- A thousand and one picoseconds are a nanosecond, not a thousand and one.
correct_epb_timestamp-finer_example :
    (correct_epb_timestamp 1001 (some 12) ≡ 1001)
    × (1001 * 1_000_000_000 / ticks_per_second (some 12)
        ≡ correct_epb_timestamp 1001 (some 12) / 10 ^ 3)
correct_epb_timestamp-finer_example = correct_epb_timestamp-finer 1001 3 (omega arith) (omega arith)

abbrev blocks : List NextBlock
blocks =
    other_block
    ∷ enhanced_packet 0 (1 ∷ 2 ∷ []) 5_000_000
        (record { linktype = linux_sll2; options = if_tsresol 6 ∷ [] } ∷ [])
    ∷ other_block
    ∷ enhanced_packet 3 (7 ∷ []) 9_000_000 []
    ∷ block_error
    ∷ []
