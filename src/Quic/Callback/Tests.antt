-- ===== src/Quic/Callback/Tests.antt =====
-- Events of a connection over QUIC with a request of three bytes.
use wrk_quic.Prelude.{ℕ, ◌≡◌, refl, false, List, [], ◌∷◌, map}
use wrk_quic.Quic.Callback.{Preparing}
use wrk_quic.Quic.Callback.Prefixes.{prepare_all, provide_all, first_bytes, prepare_all-first_bytes}
use wrk_quic.Examples.{fixed, log, loop, config, pico, world}

abbrev early : Preparing
early = record { latest = 1010; started = 1020; request = [] }

-- Two packets with room for two bytes.
abbrev packets : List (ℕ × Preparing)
packets = (2, early) ∷ (2, early) ∷ []

prepare_all-first_bytes_example :
    (prepare_all fixed log loop pico config refl packets world).quic
    ≡ provide_all pico
        (map (first_bytes fixed log loop pico config refl 3 (71 ∷ 69 ∷ 84 ∷ [])) packets)
        world.quic
prepare_all-first_bytes_example =
    prepare_all-first_bytes fixed log loop pico config refl packets world refl

-- Both are the first two bytes, and the stream does not end.
same_bytes :
    map (first_bytes fixed log loop pico config refl 3 (71 ∷ 69 ∷ 84 ∷ [])) packets
    ≡ (71 ∷ 69 ∷ [], false) ∷ (71 ∷ 69 ∷ [], false) ∷ []
same_bytes = refl
