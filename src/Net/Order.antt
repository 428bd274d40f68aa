-- ===== src/Net/Order.antt =====
-- include/net/ipv4.h: the byte order of the network.
use bingos.Common.{ℕ, ◌/◌, ◌%◌, ◌^◌, ◌<◌, ◌≡◌, [], ◌∷◌, arith}
use bingos.Net.{htons, htonl, store16, store32}

-- htons and htonl are their own inverses on numbers of 16 and 32 bits, and a field stored in the
-- order of the network has its high byte first.
pub htons-htonl_involutive :
    (s l : ℕ)
    → s < 2 ^ 16
    → l < 2 ^ 32
    → (htons (htons s) ≡ s)
      × (htonl (htonl l) ≡ l)
      × (store16 (htons s) ≡ s / 2 ^ 8 ∷ s % 2 ^ 8 ∷ [])
      × (store32 (htonl l) ≡ l / 2 ^ 24 ∷ l / 2 ^ 16 % 2 ^ 8 ∷ l / 2 ^ 8 % 2 ^ 8 ∷ l % 2 ^ 8 ∷ [])
unfolding htons htonl store16 store32
htons-htonl_involutive s l p q = (omega arith, omega arith, grind arith, grind arith)
