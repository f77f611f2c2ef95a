-- ===== src/Bots.antt =====
-- The call data of the liquidation contract: class BSCVenusPancakeV2 of bots.py. A text of words of 64
-- hexadecimal digits.
use compound_liquidation.Prelude.{
  suc, ℕ, ◌+◌, ◌*◌, ◌≤◌, ◌<◌, ◌^◌, ◌≡◌, refl, String, List, [], ◌∷◌, length, arith, All,
}
use Prim.Native.String.{count, ◌++◌ as append_text}
use compound_liquidation.Prelude.Int.{ℤ, pos, negsuc}
use compound_liquidation.Prelude.Text.{
  lower, slice_from, zfill, hex_digits, str, count-zfill, count-hex_digits,
}
use compound_liquidation.Router.{Hop}
use text.Mathlib.TextLemmas.{length-append}

-- `addr.lower()[2:].zfill(64)`
unfoldable pub address_word : String → String
address_word addr = zfill (slice_from 2 (lower addr)) 64

-- `hex(n)[2:].zfill(64)`
unfoldable pub number_word : ℕ → String
number_word n = zfill (hex_digits n) 64

-- `hex(n)[2:].zfill(64)` of an integer, where the slice of "-0x5" leaves "x5"
unfoldable pub amount_word : ℤ → String
unfolding number_word
amount_word (pos n) = number_word n
amount_word (negsuc n) = zfill (append_text "x" (hex_digits (suc n))) 64

-- the words of one step
unfoldable pub step_words : Hop → String
unfolding address_word number_word amount_word
step_words path = append_text (address_word path.pool_addr) (
    append_text (number_word path.fee) (
      append_text (zfill (str path.is_zero_for_one) 64) (
        append_text (address_word path.token0)
          (append_text (address_word path.token1) (amount_word path.amount_out)))))

-- the loop, from the last step to the first
unfoldable pub steps_words : List Hop → String
unfolding step_words
steps_words [] = ""
steps_words (path ∷ paths) = append_text (steps_words paths) (step_words path)

unfoldable pub gen : (borrower debt_ctoken col_ctoken : String) → List Hop → String
unfolding address_word number_word steps_words
gen borrower debt_ctoken col_ctoken paths = append_text "0x5cf671a6" (
    append_text (address_word borrower) (
      append_text (address_word debt_ctoken) (
        append_text (address_word col_ctoken) (
          append_text (zfill (slice_from 2 "0x80") 64)
            (append_text (number_word (length paths)) (steps_words paths))))))

-- An address with at most 64 digits, and numbers below 2^256.
abbrev pub IsAddress : String → Type 0
IsAddress addr = count (slice_from 2 (lower addr)) ≤ 64

pub record IsStep (path : Hop) : Type 0 where
  pub pool_fits : IsAddress path.pool_addr
  pub fee_fits : path.fee < 2 ^ 256
  pub flag_fits : count (str path.is_zero_for_one) ≤ 64
  pub token0_fits : IsAddress path.token0
  pub token1_fits : IsAddress path.token1
  pub amount : ℕ
  pub amount_is : path.amount_out ≡ pos amount
  pub amount_fits : amount < 2 ^ 256

count-address_word : (addr : String) → IsAddress addr → count (address_word addr) ≡ 64
unfolding address_word
count-address_word addr h = count-zfill (slice_from 2 (lower addr)) 64 h

count-number_word : (n : ℕ) → n < 2 ^ 256 → count (number_word n) ≡ 64
unfolding number_word
count-number_word n h = count-zfill (hex_digits n) 64 (count-hex_digits n h)

count-step_words : (path : Hop) → IsStep path → count (step_words path) ≡ 6 * 64
unfolding step_words amount_word
count-step_words path h =
    rw
      (
        length-append,
        length-append,
        length-append,
        length-append,
        length-append,
        count-address_word path.pool_addr h.pool_fits,
        count-number_word path.fee h.fee_fits,
        count-zfill (str path.is_zero_for_one) 64 h.flag_fits,
        count-address_word path.token0 h.token0_fits,
        count-address_word path.token1 h.token1_fits,
        h.amount_is,
        count-number_word h.amount h.amount_fits,
      )
      refl

count-steps_words :
    (paths : List Hop) → All IsStep paths → count (steps_words paths) ≡ 6 * 64 * length paths
unfolding steps_words
count-steps_words [] h = refl
count-steps_words (path ∷ paths) h =
    rw (length-append, count-steps_words paths h.1, count-step_words path h.0) (omega arith)

-- Where the addresses have at most 64 digits and the numbers are below 2^256, the call data is the
-- 10 characters of the selector with 0x and 64 characters for each of five words and of six words
-- a step.
pub count-gen :
    (borrower debt_ctoken col_ctoken : String) (paths : List Hop)
    → IsAddress borrower
    → IsAddress debt_ctoken
    → IsAddress col_ctoken
    → All IsStep paths
    → length paths < 2 ^ 256
    → count (gen borrower debt_ctoken col_ctoken paths) ≡ 10 + 64 * (5 + 6 * length paths)
unfolding gen slice_from
count-gen borrower debt_ctoken col_ctoken paths hb hd hc hp hl =
    rw
      (
        length-append,
        length-append,
        length-append,
        length-append,
        length-append,
        length-append,
        count-address_word borrower hb,
        count-address_word debt_ctoken hd,
        count-address_word col_ctoken hc,
        count-zfill (slice_from 2 "0x80") 64 (omega arith),
        count-number_word (length paths) hl,
        count-steps_words paths hp,
      )
      (omega arith)
