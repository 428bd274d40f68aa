-- ===== src/Net/Tests.antt =====
-- net/net.c: packets, checksums and addresses on concrete input.
use bingos.Common.{
  ℕ, List, All, ◌<◌, ◌+◌, ◌-◌, ◌/◌, ◌%◌, ◌^◌, ◌≤◌, ◌≡◌, ◌↔◌, refl, [], ◌∷◌, arith, length, some,
}
use bingos.Net.{
  htons, htonl, load16, load32, store16, store32, sum_words, calculate_ipv4_checksum, Netif,
  write_dhcp_packet, write_arp_request, isspace, isdigit, skip_spaces, digits, ip_aton,
}
use bingos.Net.Checksum.{end_around, word_sum, calculate_ipv4_checksum_verifies}
use bingos.Net.Order.{htons-htonl_involutive}
use bingos.Net.Packets.{write_dhcp_packet_lem, write_arp_request_lem}

-- "10.0.2.3"
ip_aton-dns : ip_aton (49 ∷ 48 ∷ 46 ∷ 48 ∷ 46 ∷ 50 ∷ 46 ∷ 51 ∷ []) ≡ some 167772675
unfolding ip_aton skip_spaces isspace digits isdigit
ip_aton-dns = refl

-- "0.0.0.0"
ip_aton-any : ip_aton (48 ∷ 46 ∷ 48 ∷ 46 ∷ 48 ∷ 46 ∷ 48 ∷ []) ≡ some 0
unfolding ip_aton skip_spaces isspace digits isdigit
ip_aton-any = refl

-- "255.255.255.255"
ip_aton-broadcast :
    ip_aton (50 ∷ 53 ∷ 53 ∷ 46 ∷ 50 ∷ 53 ∷ 53 ∷ 46 ∷ 50 ∷ 53 ∷ 53 ∷ 46 ∷ 50 ∷ 53 ∷ 53 ∷ [])
    ≡ some (2 ^ 32 - 1)
unfolding ip_aton skip_spaces isspace digits isdigit
ip_aton-broadcast = refl

-- A sum with two carries: the checksum that is returned is not the right one.
checksum_folded_once : calculate_ipv4_checksum (255 ∷ 255 ∷ 0 ∷ 1 ∷ 255 ∷ 255 ∷ []) ≡ 65535
unfolding calculate_ipv4_checksum sum_words
checksum_folded_once = refl

htons-htonl_involutive_example :
    (htons (htons 2048) ≡ 2048)
    × (htonl (htonl 4919) ≡ 4919)
    × (store16 (htons 2048) ≡ 2048 / 2 ^ 8 ∷ 2048 % 2 ^ 8 ∷ [])
    × (store32 (htonl 4919)
        ≡ 4919 / 2 ^ 24 ∷ 4919 / 2 ^ 16 % 2 ^ 8 ∷ 4919 / 2 ^ 8 % 2 ^ 8 ∷ 4919 % 2 ^ 8 ∷ [])
htons-htonl_involutive_example = htons-htonl_involutive 2048 4919 (omega arith) (omega arith)

abbrev header : List ℕ
header =
    69 ∷ 0 ∷ 1 ∷ 44 ∷ 0 ∷ 0 ∷ 0 ∷ 0 ∷ 64 ∷ 17 ∷ 0 ∷ 0 ∷ 10 ∷ 0 ∷ 2 ∷ 15 ∷ 255 ∷ 255 ∷ 255 ∷ 255 ∷ []

header-bytes : All (λ x. x < 256) header
header-bytes = ground arith

calculate_ipv4_checksum_verifies_example :
    (end_around (end_around (word_sum header + calculate_ipv4_checksum header)) ≡ 65535)
    ↔ (word_sum header / 2 ^ 16 + word_sum header % 2 ^ 16 ≤ 65535)
calculate_ipv4_checksum_verifies_example = calculate_ipv4_checksum_verifies header refl header-bytes

abbrev card : Netif
card = record { hwaddr = 82 ∷ 84 ∷ 0 ∷ 18 ∷ 52 ∷ 86 ∷ []; source = 167772687 }

write_dhcp_packet_lem_example :
    (htons (load16 12 (write_dhcp_packet card)) ≡ 2048)
    × (htons (load16 16 (write_dhcp_packet card)) + 14 ≡ length (write_dhcp_packet card))
    × (htons (load16 38 (write_dhcp_packet card)) + 34 ≡ length (write_dhcp_packet card))
    × (htons (load16 34 (write_dhcp_packet card)) ≡ 68)
    × (htons (load16 36 (write_dhcp_packet card)) ≡ 67)
    × (end_around (sum_words 10 14 (write_dhcp_packet card)) ≡ 65535)
write_dhcp_packet_lem_example = write_dhcp_packet_lem 82 84 0 18 52 86 167772687 card refl

write_arp_request_lem_example :
    (htons (load16 12 (write_arp_request [] card 167772676)) ≡ 2054)
    × (htonl (load32 28 (write_arp_request [] card 167772676)) ≡ 167772687)
    × (htonl (load32 38 (write_arp_request [] card 167772676)) ≡ 167772676)
write_arp_request_lem_example =
    write_arp_request_lem 82 84 0 18 52 86 167772687 167772676 [] card refl (omega arith)
      (omega arith)
