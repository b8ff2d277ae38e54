-- ===== src/Text/Address/Tests.antt =====
-- Prints of addresses.
use tlscap.Prelude.{◌+◌, ◌*◌, ◌^◌, ◌≡◌, refl, [], ◌∷◌}
use tlscap.Orchestrator.{v4, v6}
use tlscap.Text.Decimal.{decimal}
use tlscap.Text.Address.{ip_text, ipv4_text, ipv6_text, joined, hex_digits, longest_run}

loopback :
    ip_text (v4 0x7f000001) ≡ b'1' ∷ b'2' ∷ b'7' ∷ b'.' ∷ b'0' ∷ b'.' ∷ b'0' ∷ b'.' ∷ b'1' ∷ []
unfolding ip_text ipv4_text joined decimal
loopback = refl

-- fe80::1
link_local :
    ip_text (v6 (0xfe80 * 2 ^ 112 + 1)) ≡ b'f' ∷ b'e' ∷ b'8' ∷ b'0' ∷ b':' ∷ b':' ∷ b'1' ∷ []
unfolding ip_text ipv6_text joined hex_digits longest_run
link_local = refl
