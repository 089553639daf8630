-- ===== src/Main/Tests.antt =====
-- The loop over the threads on a configuration for two of them.
use wrk_quic.Prelude.{
  true, false, ℕ, ◌<◌, ◌≡◌, refl, ◌⊎◌, inl, inr, some, List, [], ◌∷◌, map, arith, ℤ, negsuc,
}
use wrk_quic.Connection.{Config}
use wrk_quic.Args.{defaults}
use wrk_quic.Examples.{fixed}
use wrk_quic.Url.{Parts}
use wrk_quic.Lua.{bytes}
use wrk_quic.Script.Machine.{Machine, machine, opaque, with_names}
use wrk_quic.Main.{
  Ending, Created, Running, start_threads, prepare_thread, configure, count_requests, add_created,
  then_do,
}
use wrk_quic.Main.Ready.{given, start_threads-shares}

-- Ten connections for the server of picoquic's samples, on two threads.
abbrev sample_server : Config
sample_server = record defaults { rate = 2000; http_version = negsuc 0 }

abbrev before : Running Machine ℕ (List ℤ) ℕ
before = record {
  state = with_names (λ n. opaque) (λ n. opaque);
  cfg = sample_server;
  reads_response = false;
  threads = [];
}

abbrev parts : Parts
parts = record { field_set = 0; off = λ f. 0; len = λ f. 0 }

abbrev both : List (Created ℕ)
both =
    record { loop = some 1; set_up = λ l. l; started = true }
    ∷ record { loop = some 2; set_up = λ l. l; started = true }
    ∷ []

run : Ending ⊎ Running Machine ℕ (List ℤ) ℕ
run =
    start_threads machine fixed (λ request. (0, 0)) (λ l own. (l, own)) (bytes "http://a/") parts []
      [] 5 [] 0 both before

after : Running Machine ℕ (List ℤ) ℕ
after = elim run [ inl e ↦ before | inr r ↦ r ]

run-after : run ≡ inr after
unfolding run after start_threads prepare_thread configure count_requests add_created then_do
run-after = refl

start_threads-shares_example :
    (0 < after.cfg.pipeline)
    × (map given after.threads ≡ (5, (10000005, 1000000000)) ∷ (5, (10000005, 1000000000)) ∷ [])
unfolding run
start_threads-shares_example =
    start_threads-shares machine fixed (λ request. (0, 0)) (λ l own. (l, own)) 5 (bytes "http://a/")
      parts [] [] [] both before after (omega arith) refl run-after
