-- ===== src/Startup/Tests.antt =====
-- A thread with ten connections, and the arguments of the tests of Args.
use wrk_quic.Prelude.{ℕ, ◌+◌, ◌*◌, ◌≤◌, ◌<◌, true, List, [], ◌∷◌, ℤ}
use wrk_quic.Connection.{Thread}
use wrk_quic.Examples.{Loop, Armed, fresh_thread}
use wrk_quic.Args.Example.{
  atoi, inet_addr, script_parse_url, url, by_default, parse_args-by_default,
}
use wrk_quic.Startup.{share}
use wrk_quic.Startup.Shares.{share_bounds}

share_bounds_example :
    (0 < share by_default.cfg)
    × (2 * share by_default.cfg ≤ 10)
    × (10 < 2 * share by_default.cfg + 2)
share_bounds_example =
    share_bounds atoi inet_addr true script_parse_url [] (url ∷ []) by_default url true
      parse_args-by_default

abbrev ten : Thread ℕ (List ℤ) Loop
ten = record fresh_thread { connections = 10 }
