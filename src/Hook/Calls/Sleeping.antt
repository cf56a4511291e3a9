-- ===== src/Hook/Calls/Sleeping.antt =====
-- The delay of sleep.
use uiconnect.Base.{ℕ, ◌*◌, ◌^◌, ◌≤◌, ◌<◌, ◌≡◌, ◌⊎◌, arith}
use uiconnect.Hook.Calls.{sleep_delay}

-- sleep waits the milliseconds of its seconds up to 4294967 seconds, and for more than that it waits
-- less.
pub sleep_delay_lem :
    (seconds : ℕ)
    → seconds < 2 ^ 32
    → ((seconds ≤ 4294967) × (sleep_delay seconds ≡ seconds * 1000))
      ⊎ ((4294967 < seconds) × (sleep_delay seconds < seconds * 1000))
unfolding sleep_delay
sleep_delay_lem seconds h = grind arith
