-- ===== src/Tests/Cached.antt =====
-- The theorem on the cache files at concrete states.
use compound_liquidation.Prelude.{◌≡◌, ok, none, keys}
use compound_liquidation.Prelude.Int.{pos}
use compound_liquidation.Users.Cache.{map_values, cache, reload_states}
use compound_liquidation.Users.Cache.Reloaded.{infos_reloaded, reload_states-cache}
use compound_liquidation.Samples.{states_sample}

reload_states-cache_example :
    let (files, t) = cache states_sample in
    reload_states 1 (pos 0) (keys states_sample.ctokens) files
    ≡ ok (record t { ctokens = map_values infos_reloaded states_sample.ctokens; plug_in = none })
reload_states-cache_example =
    reload_states-cache (pos 0) states_sample (tt, tt) ((tt, tt), tt) (tt, tt)
