-- ===== src/Mac.antt =====
-- hw/drivers/uwb/src/uwb.c: the list of the services on a device, and the receive window after a
-- transmission.
pub mod Registry
pub mod Window
mod Tests
use uwb_core.Common.{
  ℕ, ◌+◌, ◌-◌, ◌*◌, ◌/◌, ◌%◌, Bool, true, false, List, [], ◌∷◌, Option, none, some, ◌==◌, u32,
}

-- `struct uwb_mac_interface` as the list is concerned; its callbacks are those of the instance.
pub record Interface : Type 0 where
  pub id : ℕ
  pub inst_ptr : ℕ
  pub initialized : Bool

-- `SLIST_INSERT_AFTER` the last one, or at the head of an empty list
unfoldable pub insert_last : Interface → List Interface → List Interface
insert_last c [] = c ∷ []
insert_last c (x ∷ xs) = x ∷ insert_last c xs

unfoldable pub append_interface : Interface → List Interface → List Interface
append_interface c xs = insert_last (record c { initialized = true }) xs

unfoldable pub remove_interface : ℕ → List Interface → List Interface
remove_interface i [] = []
remove_interface i (x ∷ xs) =
    let rest = remove_interface i xs in elim (x.id == i) [ true ↦ xs | false ↦ x ∷ rest ]

unfoldable pub get_interface : ℕ → List Interface → Option Interface
get_interface i [] = none
get_interface i (x ∷ xs) =
    let rest = get_interface i xs in elim (x.id == i) [ true ↦ some x | false ↦ rest ]

unfoldable pub find_cb_inst_ptr : ℕ → List Interface → Option ℕ
find_cb_inst_ptr i xs = elim (get_interface i xs) [ none ↦ none | some c ↦ some c.inst_ptr ]

-- `x & UWB_DTU_40BMASK`
abbrev pub dtu40 : ℕ → ℕ
dtu40 x = x % 1099511627776

-- `uint64_t` subtraction
abbrev pub sub64 : ℕ → ℕ → ℕ
sub64 a b = (a + 18446744073709551616 - b % 18446744073709551616) % 18446744073709551616

unfoldable pub tx_end : ℕ → ℕ → ℕ
tx_end tx_ts tx_post_rmarker_len = dtu40 ((tx_ts + tx_post_rmarker_len) % 18446744073709551616)

-- The timeout that `uwb_set_post_tx_rx_window` sets, in µs.
unfoldable pub post_tx_timeout : ℕ → ℕ → ℕ → ℕ
unfolding tx_end
post_tx_timeout tx_ts tx_post_rmarker_len rx_end =
    u32 (dtu40 (sub64 rx_end (tx_end tx_ts tx_post_rmarker_len)) / 65536)
