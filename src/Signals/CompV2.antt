-- ===== src/Signals/CompV2.antt =====
-- The price scales of class SignalsCompV2 of configs/signals.py. The observations are not negative,
-- so neither are the prices scaled here.
use compound_liquidation.Prelude.{ℕ, ◌+◌, ◌-◌, ◌*◌, ◌^◌, String, Result}
use Prim.Native.String.{◌++◌ as append_text}
use compound_liquidation.Prelude.Int.{pos}
use compound_liquidation.Prelude.Text.{zfill, str, int_dec}
use compound_liquidation.Prelude.Float.{Floats}
use compound_liquidation.Tokens.{CtokenConfigs}

-- an exponent below zero counts as zero
abbrev pub delta : ℕ → ℕ → ℕ
delta base_units rep_multiplier = 30 + rep_multiplier - base_units * 2

unfoldable pub price_scale : ℕ → ℕ → ℕ → String
price_scale price base_units rep_multiplier =
    append_text (str price) (zfill "" (delta base_units rep_multiplier))

pub gen_oracle_params : ℕ → CtokenConfigs → ℕ × ℕ
gen_oracle_params feed_decimals cfg = (cfg.base_units, cfg.reporter_multiplier)

pub get_oracle_price : ℕ → ℕ → CtokenConfigs → Result ℕ
unfolding price_scale
get_oracle_price price feed_decimals cfg =
    int_dec (price_scale price cfg.base_units cfg.reporter_multiplier)

pub price_scale_inverse : {F : Type 0} ⦃fl : Floats F⦄ → ℕ → ℕ → ℕ → F
price_scale_inverse ⦃fl⦄ price base_units rep_multiplier =
    fl.div_int (pos price) (pos (10 ^ delta base_units rep_multiplier))
