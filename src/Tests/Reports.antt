-- ===== src/Tests/Reports.antt =====
-- The theorem on the logs without a report at a concrete log.
use compound_liquidation.Prelude.{refl, none, ok}
use compound_liquidation.Prelude.Int.{pos}
use compound_liquidation.Chain.{parse_event}
use compound_liquidation.Listener.{Queries, update}
use compound_liquidation.Listener.Silent.{IsOther, update-none}
use compound_liquidation.Samples.{Milli, milli_floats, log_sample, eth_sample}

abbrev queries_sample : Queries
queries_sample = record {
  get_block_time = λ block_num. ok (pos 5000);
  get_reserves_value = λ token amount is_col. ok amount;
  get_transaction_by_block = λ block_num index. none;
  query_recpt_infos = λ hash. (pos 0, pos 0);
}

update-none_example : IsOther eth_sample log_sample
unfolding update parse_event milli_floats
update-none_example = update-none {F = Milli} eth_sample queries_sample log_sample refl
