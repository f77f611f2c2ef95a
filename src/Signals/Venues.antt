-- ===== src/Signals/Venues.antt =====
-- The price scales of class SignalsCompVenues of configs/signals.py. The observations are not
-- negative, so neither are the prices scaled here.
use compound_liquidation.Prelude.{ℕ, ◌-◌, ◌^◌, String, Result}
use Prim.Native.String.{◌++◌ as append_text}
use compound_liquidation.Prelude.Int.{ℤ, pos}
use compound_liquidation.Prelude.Text.{zfill, str, int_dec}
use compound_liquidation.Prelude.Float.{Floats}
use compound_liquidation.Tokens.{CtokenConfigs}

unfoldable pub price_scale : ℕ → ℕ → ℕ → String
price_scale price underlying_decimals feed_decimals =
    append_text (append_text (str price) (zfill "" (18 - underlying_decimals)))
      (zfill "" (18 - feed_decimals))

pub gen_oracle_params : ℕ → CtokenConfigs → ℕ × ℕ
gen_oracle_params feed_decimals cfg = (cfg.underlying_decimals, feed_decimals)

pub get_oracle_price : ℕ → ℕ → CtokenConfigs → Result ℕ
unfolding price_scale
get_oracle_price price feed_decimals cfg =
    int_dec (price_scale price cfg.underlying_decimals feed_decimals)

-- it divides by the decimals of the feed, where `price_scale` adds what they leave of 18
pub price_scale_inverse : {F : Type 0} ⦃fl : Floats F⦄ → ℤ → ℕ → ℕ → F
price_scale_inverse ⦃fl⦄ price underlying_decimals feed_decimals =
    fl.div (fl.div_int price (pos (10 ^ (18 - underlying_decimals))))
      (fl.of_int (pos (10 ^ feed_decimals)))
