-- ===== src/TcpServer/Flags.antt =====
-- `configure_fd`: the flag that it sets, and those that it keeps.
use mosss.Common.{ℕ, zero, suc, ◌/◌, ◌%◌, ◌≡◌, refl, ap, ◌∙◌, bit_or, arith, some, true}
use Prim.Native.Nat.{max}
use mosss.Common.Bits.{bit_or_step}
use mosss.TcpServer.Threads.{configure_fd, o_nonblock}

-- The bits from the `k`-th on.
abbrev halve : ℕ → ℕ → ℕ
halve zero n = n
halve (suc k) n = halve k (n / 2)

bit_or-half : (u v : ℕ) → bit_or u v / 2 ≡ bit_or (u / 2) (v / 2)
bit_or-half u v = ground (arith, bit_or_step u v)

halve-bit_or : (k u v : ℕ) → halve k (bit_or u v) ≡ bit_or (halve k u) (halve k v)
halve-bit_or zero u v = refl
halve-bit_or (suc k) u v = ap (halve k) (bit_or-half u v) ∙ halve-bit_or k (u / 2) (v / 2)

bit_or-bit : (u v : ℕ) → bit_or u v % 2 ≡ max (u % 2) (v % 2)
bit_or-bit u v = ground (arith, bit_or_step u v)

-- Where the two calls of `fcntl` succeed, the descriptor does not block, and every other flag is as it
-- was.
configure_fd-flags :
    (flags : ℕ)
    → (halve 11 (configure_fd (some flags) true flags) % 2 ≡ 1)
      × ((k : ℕ)
          → halve k o_nonblock % 2 ≡ 0
          → halve k (configure_fd (some flags) true flags) % 2 ≡ halve k flags % 2)
unfolding configure_fd
configure_fd-flags flags = (
  ap (λ n. n % 2) (halve-bit_or 11 flags o_nonblock) ∙ bit_or-bit (halve 11 flags) 1 ∙ ground arith,
  λ k other.
      ap (λ n. n % 2) (halve-bit_or k flags o_nonblock)
      ∙ bit_or-bit (halve k flags) (halve k o_nonblock)
      ∙ ground (arith, other),
)
