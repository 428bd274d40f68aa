-- ===== src/Net.antt =====
-- net/net.c: the packets that the network task writes, the checksum and the addresses.
--
-- A buffer is the list of its bytes. Masks and shifts are written with % and /, and an or of parts
-- that share no bit with +. The structures are packed, and the machine stores a number with its low
-- byte first. Sending and receiving a packet are the driver's, and not modelled.
pub mod Order
pub mod Checksum
pub mod Packets
mod Tests
use Prim.Native.Nat.{bit_or}
use bingos.Common.{
  ◌>>=◌, ℕ, zero, suc, ◌+◌, ◌-◌, ◌*◌, ◌/◌, ◌%◌, ◌^◌, Bool, true, false, ◌||◌, ◌&&◌, Option, none,
  some, List, [], ◌∷◌, ◌++◌, ltb, leb, ◌==◌, if◌then◌else◌, length, take, drop, replicate, get_or,
}

pub htons : ℕ → ℕ
htons s = (s % 2 ^ 8) * 2 ^ 8 + (s / 2 ^ 8) % 2 ^ 8

pub htonl : ℕ → ℕ
htonl l =
    (l % 2 ^ 8) * 2 ^ 24
    + (l / 2 ^ 8 % 2 ^ 8) * 2 ^ 16
    + (l / 2 ^ 16 % 2 ^ 8) * 2 ^ 8
    + l / 2 ^ 24 % 2 ^ 8

-- A field of 16 or 32 bits in memory.
pub store16 : ℕ → List ℕ
store16 s = s % 2 ^ 8 ∷ s / 2 ^ 8 % 2 ^ 8 ∷ []

pub store32 : ℕ → List ℕ
store32 l = l % 2 ^ 8 ∷ l / 2 ^ 8 % 2 ^ 8 ∷ l / 2 ^ 16 % 2 ^ 8 ∷ l / 2 ^ 24 % 2 ^ 8 ∷ []

-- The fields read back, at an offset.
pub load16 : ℕ → List ℕ → ℕ
load16 i buffer = get_or buffer i 0 + get_or buffer (suc i) 0 * 2 ^ 8

pub load32 : ℕ → List ℕ → ℕ
unfolding load16
load32 i buffer = load16 i buffer + load16 (i + 2) buffer * 2 ^ 16

-- The loop of `calculate_ipv4_checksum`, from byte `i`.
pub sum_words : ℕ → ℕ → List ℕ → ℕ
unfolding htons load16
sum_words zero i packet = 0
sum_words (suc left) i packet = htons (load16 i packet) + sum_words left (i + 2) packet

pub calculate_ipv4_checksum : List ℕ → ℕ
calculate_ipv4_checksum packet =
    let sum = sum_words 10 0 packet in
    let folded = if ltb 65535 sum then sum / 2 ^ 16 + sum % 2 ^ 16 else sum in
    (65535 - folded % 2 ^ 16) % 2 ^ 16

pub record Netif : Type 0 where
  pub hwaddr : List ℕ
  pub source : ℕ

abbrev pub broadcast_mac : List ℕ
broadcast_mac = 255 ∷ 255 ∷ 255 ∷ 255 ∷ 255 ∷ 255 ∷ []

abbrev sizeof_ipv4 : ℕ
sizeof_ipv4 = 20

abbrev sizeof_udp : ℕ
sizeof_udp = 8

-- struct dhcp_packet, one byte of options included.
abbrev sizeof_dhcp : ℕ
sizeof_dhcp = 241

pub ethernet_header : Netif → ℕ → List ℕ
ethernet_header netif type = broadcast_mac ++ netif.hwaddr ++ store16 (htons type)

-- The header of `write_dhcp_packet` with a payload of a size and a checksum.
pub ipv4_out : ℕ → ℕ → List ℕ
unfolding htons htonl store16 store32
ipv4_out payload_size checksum =
    (69 ∷ 0 ∷ [])
    ++ store16 (htons (sizeof_ipv4 + sizeof_udp + payload_size))
    ++ store16 (htons 1)
    ++ store16 0
    ++ (64 ∷ 17 ∷ [])
    ++ store16 checksum
    ++ store32 (htonl 0)
    ++ store32 (htonl (2 ^ 32 - 1))

pub udp_out : ℕ → List ℕ
unfolding htons store16
udp_out payload_size =
    store16 (htons 68)
    ++ store16 (htons 67)
    ++ store16 (htons (sizeof_udp + payload_size))
    ++ store16 0

pub bootp_out : Netif → List ℕ
unfolding htonl store32
bootp_out netif =
    (1 ∷ 1 ∷ 6 ∷ 0 ∷ [])
    ++ store32 (htonl 4919)
    ++ replicate 20 0
    ++ netif.hwaddr
    ++ replicate 10 0
    ++ replicate 64 0
    ++ replicate 128 0
    ++ store32 (htonl 1669485411)
    ++ (0 ∷ [])

abbrev dhcp_options : List ℕ
dhcp_options = 53 ∷ 1 ∷ 1 ∷ 55 ∷ 2 ∷ 3 ∷ 6 ∷ 255 ∷ []

-- The bytes that `write_dhcp_packet` writes; their number is what it returns.
pub write_dhcp_packet : Netif → List ℕ
write_dhcp_packet netif =
    let payload_size = sizeof_dhcp + length dhcp_options in
    let checksum = calculate_ipv4_checksum (ipv4_out payload_size 0) in
    ethernet_header netif 2048
    ++ ipv4_out payload_size (htons checksum)
    ++ udp_out payload_size
    ++ bootp_out netif
    ++ dhcp_options

-- The same of `write_arp_request`. The padding is not written by the source: it is an argument.
pub write_arp_request : List ℕ → Netif → ℕ → List ℕ
write_arp_request padding netif ip =
    ethernet_header netif 2054
    ++ store16 (htons 1)
    ++ store16 (htons 2048)
    ++ (6 ∷ 4 ∷ [])
    ++ store16 (htons 1)
    ++ netif.hwaddr
    ++ store32 (htonl netif.source)
    ++ replicate 6 0
    ++ store32 (htonl ip)
    ++ padding

-- `isspace` and `isdigit` of libc/stdlib.c.
pub isspace : ℕ → Bool
isspace c = c == 32 || (leb 9 c && ltb c 14)

pub isdigit : ℕ → Bool
isdigit c = leb 48 c && ltb c 58

pub skip_spaces : List ℕ → List ℕ
skip_spaces [] = []
skip_spaces (c ∷ s) = if isspace c then skip_spaces s else c ∷ s

-- The digits, as the absolute value of the source's negative `n`. The numbers stay below 2 ^ 31.
pub digits : ℕ → List ℕ → ℕ
digits n [] = n
digits n (c ∷ s) = if isdigit c then digits (10 * n + (c - 48)) s else n

-- `atoi`: the sign and the absolute value.
pub atoi : List ℕ → Bool × ℕ
unfolding digits skip_spaces
atoi s = elim (skip_spaces s) [
  | [] ↦ (false, 0)
  | c ∷ s' ↦
      if c == 45
      then (true, digits 0 s')
      else if c == 43
      then (false, digits 0 s')
      else (false, digits 0 (c ∷ s'))
]

-- The value as a uint32_t.
pub atoi32 : List ℕ → ℕ
unfolding atoi
atoi32 s = let n = atoi s in if n.0 then (2 ^ 32 - n.1 % 2 ^ 32) % 2 ^ 32 else n.1 % 2 ^ 32

-- `lfind(c, '.')` with the byte overwritten by NUL: what is before the first '.' and behind it. A
-- text without a '.' is searched behind its end.
pub cut : List ℕ → Option (List ℕ × List ℕ)
cut [] = none
cut (c ∷ s) =
    let rest = cut s in
    if c == 46
    then some ([], s)
    else elim rest [ none ↦ none | some (before, behind) ↦ some (c ∷ before, behind) ]

-- `ip_aton`: the text is cut after 15 bytes.
pub ip_aton : List ℕ → Option ℕ
unfolding cut atoi32
ip_aton text = do
  (a, text) ← cut (take 15 text)
  (b, text) ← cut text
  (c, text) ← cut text
  some (
      bit_or ((atoi32 a * 2 ^ 24) % 2 ^ 32) (
        bit_or ((atoi32 b * 2 ^ 16) % 2 ^ 32) (bit_or ((atoi32 c * 2 ^ 8) % 2 ^ 32) (atoi32 text))))
