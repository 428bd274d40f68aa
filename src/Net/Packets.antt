-- ===== src/Net/Packets.antt =====
-- net/net.c: what a receiver reads from the packets that are written.
use bingos.Common.{ℕ, ◌+◌, ◌*◌, ◌/◌, ◌%◌, ◌^◌, ◌<◌, ◌≡◌, refl, List, [], ◌∷◌, arith, length}
use bingos.Net.{
  htons, htonl, load16, load32, store16, store32, sum_words, calculate_ipv4_checksum, Netif,
  ethernet_header, ipv4_out, udp_out, bootp_out, write_dhcp_packet, write_arp_request,
}
use bingos.Net.Checksum.{end_around}
use bingos.Net.Order.{htons-htonl_involutive}

-- The DHCP packet is well formed: its type is IPv4, the lengths in the IPv4 and UDP headers are those
-- of the bytes written, the ports are 68 and 67, and the checksum verifies; the hardware address has
-- six bytes.
pub write_dhcp_packet_lem :
    (a b c d e f source : ℕ) (netif : Netif)
    → netif ≡ record { hwaddr = a ∷ b ∷ c ∷ d ∷ e ∷ f ∷ []; source = source }
    → (htons (load16 12 (write_dhcp_packet netif)) ≡ 2048)
      × (htons (load16 16 (write_dhcp_packet netif)) + 14 ≡ length (write_dhcp_packet netif))
      × (htons (load16 38 (write_dhcp_packet netif)) + 34 ≡ length (write_dhcp_packet netif))
      × (htons (load16 34 (write_dhcp_packet netif)) ≡ 68)
      × (htons (load16 36 (write_dhcp_packet netif)) ≡ 67)
      × (end_around (sum_words 10 14 (write_dhcp_packet netif)) ≡ 65535)
unfolding write_dhcp_packet ethernet_header ipv4_out udp_out bootp_out calculate_ipv4_checksum
    sum_words end_around htons htonl load16 store16 store32
write_dhcp_packet_lem a b c d e f source netif h = rw h (refl, refl, refl, refl, refl, refl)

htonl-bound : (l : ℕ) → htonl l < 2 ^ 32
unfolding htonl
htonl-bound l = omega arith

whole :
    (l : ℕ)
    → l < 2 ^ 32
    → l % 256 + l / 256 % 256 * 256 + (l / 65536 % 256 + l / 16777216 % 256 * 256) * 65536 ≡ l
whole l h = omega arith

htonl-load32 :
    (l : ℕ)
    → l < 2 ^ 32
    → htonl (
        htonl l % 256
        + htonl l / 256 % 256 * 256
        + (htonl l / 65536 % 256 + htonl l / 16777216 % 256 * 256) * 65536)
      ≡ l
htonl-load32 l h =
    rw (whole (htonl l) (htonl-bound l)) (htons-htonl_involutive 0 l (omega arith) h).1

-- An ARP request names its sender's address, the address asked for and type ARP, whatever stands in
-- its padding; the hardware address has six bytes.
pub write_arp_request_lem :
    (a b c d e f source ip : ℕ) (padding : List ℕ) (netif : Netif)
    → netif ≡ record { hwaddr = a ∷ b ∷ c ∷ d ∷ e ∷ f ∷ []; source = source }
    → source < 2 ^ 32
    → ip < 2 ^ 32
    → (htons (load16 12 (write_arp_request padding netif ip)) ≡ 2054)
      × (htonl (load32 28 (write_arp_request padding netif ip)) ≡ source)
      × (htonl (load32 38 (write_arp_request padding netif ip)) ≡ ip)
unfolding write_arp_request ethernet_header htons load16 load32 store16 store32
write_arp_request_lem a b c d e f source ip padding netif h p q =
    rw h (refl, htonl-load32 source p, htonl-load32 ip q)
