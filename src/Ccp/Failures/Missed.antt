-- ===== src/Ccp/Failures/Missed.antt =====
-- Packets that do not come: how far the epochs run on, and how often the superframe is announced.
use uwb_core.Common.{ℕ, zero, suc, ◌+◌, ◌*◌, ◌%◌, ◌≡◌, List, if◌then◌else◌, leb, u8}
use uwb_core.Ccp.{Ccp, call_all}
use uwb_core.Ccp.Failures.{rx_timeout_cb}

-- how often the superframe is announced in `n` misses, after `k` before
abbrev pub issued : ℕ → ℕ → ℕ → ℕ
issued tolerate k zero = 0
issued tolerate k (suc n) =
    let rest = issued tolerate (u8 (k + 1)) n in
    if leb (u8 (k + 1)) tolerate then suc rest else rest

abbrev pub iterate {ℓ} : {A : Type ℓ} → ℕ → (A → A) → A → A
iterate zero f x = x
iterate (suc n) f x = iterate n f (f x)

module _ {S : Type 0} where
  -- A timeout of a task that listens again.
  abbrev pub time_out : Ccp S → Ccp S
  time_out c = (rx_timeout_cb (record c { sem = 0 })).1

  -- the state `d` is `n` periods of `y` units behind these epochs and this state of the application
  abbrev pub Moved : ℕ → ℕ → List (S → S) → ℕ → ℕ → S → Ccp S → Type 0
  Moved n y cbs local master app d =
      (d.local_epoch ≡ (local + n * y) % 18446744073709551616)
      × (d.master_epoch ≡ (master + n * y) % 18446744073709551616)
      × (d.app ≡ iterate n (call_all cbs) app)

  abbrev pub Run : ℕ → Ccp S → Ccp S → Type 0
  Run n c d = Moved n (c.period * 65536) c.superframe_cbs c.local_epoch c.master_epoch c.app d

  abbrev Same : Ccp S → Ccp S → Type 0
  Same c d =
      (d.period ≡ c.period)
      × (d.superframe_cbs ≡ c.superframe_cbs)
      × (d.settings ≡ c.settings)
      × (d.valid ≡ c.valid)
