-- ===== src/Config.antt =====
-- The constants of configs/config.py for the network and protocol that it selects, BSC and Venus,
-- and those at the top of compound.py.
use compound_liquidation.Prelude.{ℕ, ◌^◌, ◌*◌, String}

abbrev pub exp_scale : ℕ
exp_scale = 10 ^ 18

abbrev pub exchange_rate_init : ℕ
exchange_rate_init = 200000000000000000000000000

-- seconds per block
abbrev pub intvl : ℕ
intvl = 3

abbrev pub sig_delay_max : ℕ
sig_delay_max = 1

abbrev pub base_currency : String
base_currency = "USD"

abbrev pub desired_profit_scale : ℕ
desired_profit_scale = 10 * exp_scale

abbrev pub treasury_percent : ℕ
treasury_percent = 50000000000000000

-- `ADDRESS_ZERO`
abbrev pub address_zero : String
address_zero = "0x0000000000000000000000000000000000000000"
