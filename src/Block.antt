-- ===== src/Block.antt =====
-- The local view of the head of the chain: class BlockInfos of configs/block.py.
use compound_liquidation.Prelude.{◌+◌, ◌*◌, ◌≤◌, ◌≡◌, arith, if◌then◌else◌}
use compound_liquidation.Prelude.Int.{
  ℤ, pos, ◌+ℤ◌, ◌-ℤ◌, ◌*ℤ◌, eqb_ℤ, fdiv, +ℤ_parts, -ℤ_parts, eq_of_parts, pos_part, neg_part,
}
use compound_liquidation.Config.{intvl}

pub record BlockInfos : Type 0 where
  pub block_num : ℤ
  pub block_time : ℤ
  pub base_fee : ℤ
  pub gas_price : ℤ

-- `BlockInfos(block_num, block_time, base_fee)`
unfoldable pub init_block_infos : ℤ → ℤ → ℤ → BlockInfos
init_block_infos block_num block_time base_fee = record {
  block_num = block_num;
  block_time = block_time;
  base_fee = base_fee;
  gas_price = pos 0;
}

pub update_block : ℤ → ℤ → BlockInfos → BlockInfos
update_block new_block_num new_block_time b = record b {
  block_num = new_block_num;
  block_time = new_block_time;
}

unfoldable pub update : ℤ → ℤ → ℤ → ℤ → BlockInfos → BlockInfos
update block_num block_time base_fee gas_price b = record {
  block_num = block_num;
  block_time = block_time;
  base_fee = base_fee;
  gas_price = gas_price;
}

-- the time of a block, from its number
unfoldable pub get_current_timestamp : BlockInfos → ℤ → ℤ
get_current_timestamp b current_block_num =
    if eqb_ℤ current_block_num b.block_num
    then b.block_time
    else b.block_time +ℤ pos intvl *ℤ (current_block_num -ℤ b.block_num)

-- the number of the block, from a time
unfoldable pub get_blocknum_by_timestamp : BlockInfos → ℤ → ℤ
get_blocknum_by_timestamp b current_time =
    if eqb_ℤ current_time b.block_time
    then b.block_num
    else fdiv (current_time -ℤ b.block_time) intvl +ℤ b.block_num

-- three times an integer, in its parts
triple_parts :
    (d : ℤ) → pos_part (pos 3 *ℤ d) + 3 * neg_part d ≡ neg_part (pos 3 *ℤ d) + 3 * pos_part d
unfolding ◌*ℤ◌
triple_parts d = ground arith

-- a third, rounded down, in its parts
third_parts :
    (d : ℤ)
    → (3 * pos_part (fdiv d 3) + neg_part d ≤ pos_part d + 3 * neg_part (fdiv d 3))
      × (pos_part d + 3 * neg_part (fdiv d 3) ≤ 3 * pos_part (fdiv d 3) + neg_part d + 2)
unfolding fdiv
third_parts d = ground arith

-- The number of the block at the time that get_current_timestamp gives for block n is n.
pub get_blocknum-get_timestamp :
    (b : BlockInfos) (n : ℤ) → get_blocknum_by_timestamp b (get_current_timestamp b n) ≡ n
unfolding get_blocknum_by_timestamp get_current_timestamp
get_blocknum-get_timestamp b n =
    let delt = n -ℤ b.block_num in
    let ahead = pos 3 *ℤ delt in
    let back = b.block_time +ℤ ahead -ℤ b.block_time in
    ground (
      arith,
      -ℤ_parts n b.block_num,
      triple_parts delt,
      +ℤ_parts b.block_time ahead,
      -ℤ_parts (b.block_time +ℤ ahead) b.block_time,
      third_parts back,
      +ℤ_parts (fdiv back 3) b.block_num,
      eq_of_parts (fdiv back 3 +ℤ b.block_num) n,
      eq_of_parts b.block_num n,
    )
