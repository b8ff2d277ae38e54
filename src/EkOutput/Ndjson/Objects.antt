-- ===== src/EkOutput/Ndjson/Objects.antt =====
-- What `NdjsonWriter` writes is a document of JSON objects, each on a line of its own.
use tlscap.Prelude.{
  ℕ, ◌≡◌, refl, subst, true, false, List, [], ◌∷◌, ◌++◌, map, append_assoc, append-nil, Bool-cases,
  inl, inr,
}
use tlscap.Text.{codes}
use tlscap.Text.Lines.{line_feed}
use tlscap.Text.Decimal.{decimal}
use tlscap.Text.Address.{ip_text}
use tlscap.Orchestrator.{Endpoint}
use tlscap.Orchestrator.Frames.{PacketEvent, Flag}
use tlscap.EkOutput.Json.{json_string, escape, escape_char}
use tlscap.EkOutput.Dates.{epoch_micros}
use tlscap.EkOutput.Ek.{comma_separated}
use tlscap.EkOutput.Grouping.{member}
use tlscap.EkOutput.Values.{key}
use tlscap.EkOutput.Values.Grammar.{
  IsJson, number, string, array, object, IsElements, no_elements, element, IsMembers, no_members,
  member_of, IsMembers-append, IsDocument, object_line,
}
use tlscap.EkOutput.Ndjson.{
  NdjsonWriter, write_preamble, write_ip, write_ports, write_tls, flag_name, packet_tcp,
  write_packet_event,
}

pub one_member : (name t : List ℕ) → IsJson t → IsMembers false ((b',' ∷ key name) ++ t)
one_member name t j =
    subst (λ x. IsMembers false x) (append-nil ((b',' ∷ key name) ++ t))
      (member_of false name t [] j (no_members false))

-- The preamble and the members behind it, for a kind that needs no escapes.
pub preamble_line :
    (kind : List ℕ) (t : ℕ) (members : List ℕ)
    → escape kind ≡ kind
    → IsMembers false members
    → IsDocument 1 (write_preamble kind t ++ (members ++ b'}' ∷ line_feed ∷ []))
unfolding write_preamble json_string
preamble_line kind t members e m =
    let all = member_of true (codes "kind") (json_string kind) _ (string kind) (
      member_of false (codes "tstamp") (decimal (epoch_micros t)) members (number (epoch_micros t))
        m) in
    subst (λ x. IsDocument 1 x) (simp (e, append_assoc) refl)
      (object_line 0 _ [] all IsDocument.end)

pub write_ip-IsMembers :
    (w : NdjsonWriter) (src dst : Endpoint) → IsMembers false (write_ip w src dst)
unfolding write_ip json_string escape escape_char
write_ip-IsMembers w src dst = elim (Bool-cases (member (codes "ip") w.groups)) [
  | inl e ↦
      let fields =
        member_of true (codes "src") _ _ (string (ip_text src.0))
          (member_of false (codes "dst") _ [] (string (ip_text dst.0)) (no_members false)) in
      rw e (
        subst (λ x. IsMembers false x) (simp (append_assoc, append-nil) refl)
          (one_member (codes "ip") _ (object _ fields)))
  | inr e ↦ rw e (no_members false)
]

pub write_ports-IsMembers :
    (w : NdjsonWriter) (src dst : Endpoint) → IsMembers false (write_ports w src dst)
unfolding write_ports json_string escape escape_char
write_ports-IsMembers w src dst = elim (Bool-cases (member (codes "tcp") w.groups)) [
  | inl e ↦
      let fields =
        member_of true (codes "srcport") _ _ (number src.1)
          (member_of false (codes "dstport") _ [] (number dst.1) (no_members false)) in
      rw e (
        subst (λ x. IsMembers false x) (simp (append_assoc, append-nil) refl)
          (one_member (codes "tcp") _ (object _ fields)))
  | inr e ↦ rw e (no_members false)
]

pub write_tls-IsMembers :
    (encode_hex : List ℕ → List ℕ) (w : NdjsonWriter) (app_data : List ℕ)
    → IsMembers false (write_tls encode_hex w app_data)
unfolding write_tls json_string escape escape_char
write_tls-IsMembers encode_hex w app_data = elim (Bool-cases (member (codes "tls") w.groups)) [
  | inl e ↦
      let fields =
        member_of true (codes "app_data") _ [] (string (encode_hex app_data)) (no_members false) in
      rw e (
        subst (λ x. IsMembers false x) (simp (append_assoc, append-nil) refl)
          (one_member (codes "tls") _ (object _ fields)))
  | inr e ↦ rw e (no_members false)
]

more_flags :
    (f : Flag) (fs : List Flag)
    → IsElements false (b',' ∷ comma_separated (map (λ g. json_string (flag_name g)) (f ∷ fs)))
more_flags f [] =
    subst (λ x. IsElements false x) (append-nil (b',' ∷ json_string (flag_name f)))
      (element false (json_string (flag_name f)) [] (string (flag_name f)) (no_elements false))
more_flags f (g ∷ fs) =
    element false (json_string (flag_name f)) _ (string (flag_name f)) (more_flags g fs)

flags-IsElements :
    (fs : List Flag) → IsElements true (comma_separated (map (λ g. json_string (flag_name g)) fs))
flags-IsElements [] = no_elements true
flags-IsElements (f ∷ []) =
    subst (λ x. IsElements true x) (append-nil (json_string (flag_name f)))
      (element true (json_string (flag_name f)) [] (string (flag_name f)) (no_elements false))
flags-IsElements (f ∷ g ∷ fs) =
    element true (json_string (flag_name f)) _ (string (flag_name f)) (more_flags g fs)

packet_tcp-IsMembers : (w : NdjsonWriter) (evt : PacketEvent) → IsMembers false (packet_tcp w evt)
unfolding packet_tcp json_string escape escape_char
packet_tcp-IsMembers w evt = elim (Bool-cases (member (codes "tcp") w.groups)) [
  | inl e ↦
      let fields = member_of true (codes "srcport") _ _ (number evt.src.1) (
        member_of false (codes "dstport") _ _ (number evt.dst.1) (
          member_of false (codes "seq") _ _ (number evt.seq) (
            member_of false (codes "ack") _ _ (number evt.ack) (
              member_of false (codes "flags") _ _ (array _ (flags-IsElements evt.flags)) (
                member_of false (codes "payload_len") _ [] (number evt.payload_len)
                  (no_members false)))))) in
      rw e (
        subst (λ x. IsMembers false x) (simp (append_assoc, append-nil) refl)
          (one_member (codes "tcp") _ (object _ fields)))
  | inr e ↦ rw e (no_members false)
]

-- The event of a packet is one line, a JSON object, whatever fields are selected.
pub write_packet_event-IsDocument :
    (w : NdjsonWriter) (evt : PacketEvent) → IsDocument 1 (write_packet_event w evt)
unfolding write_packet_event escape escape_char
write_packet_event-IsDocument w evt =
    let members =
      IsMembers-append _ _ (write_ip-IsMembers w evt.src evt.dst) (packet_tcp-IsMembers w evt) in
    subst (λ x. IsDocument 1 x) (simp append_assoc refl)
      (preamble_line (codes "packet") evt.timestamp _ refl members)
