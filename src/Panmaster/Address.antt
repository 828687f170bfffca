-- ===== src/Panmaster/Address.antt =====
-- The short addresses: `first_free_short_addr` and `short_addr_is_free` of panmaster.c.
pub mod Fresh
pub mod Available
use uwb_core.Common.{
  ℕ, zero, suc, ◌+◌, ◌*◌, ◌%◌, Bool, not, List, length, any, ◌==◌, if◌then◌else◌, u16,
}
use uwb_core.Panmaster.Types.{NodeIdx}

-- the inner loop: some entry has this address
unfoldable pub addr_used : List NodeIdx → ℕ → Bool
addr_used t a = any (λ n. a == n.addr) t

-- the address tried in round `i`: the low 16 bits of the id, then `(i<<12) | (euid&0x0fff)`
unfoldable pub candidate : ℕ → ℕ → ℕ
candidate euid zero = u16 euid
candidate euid (suc i) = u16 (suc i * 4096 + euid % 4096)

-- The outer loop, with the rounds left; `addr` is what the loop returns when it ends.
unfoldable pub try_addrs : List NodeIdx → ℕ → ℕ → ℕ → ℕ → ℕ
try_addrs t euid i zero addr = addr
try_addrs t euid i (suc k) addr =
    let a = if addr_used t (candidate euid i) then 0 else candidate euid i in
    let rest = try_addrs t euid (i + 1) k a in if a == 0 then rest else a

unfoldable pub first_free_short_addr : List NodeIdx → ℕ → ℕ
first_free_short_addr t euid = try_addrs t euid 0 (length t) (u16 euid)

unfoldable pub short_addr_is_free : List NodeIdx → ℕ → Bool
short_addr_is_free t a = not (any (λ n. a == n.addr) t)
