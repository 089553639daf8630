-- ===== src/Quic/Callback/Prefixes.antt =====
-- What picoquic gets of a request when it asks for data packet by packet.
use wrk_quic.Prelude.{ℕ, ◌≡◌, refl, ap, ◌∙◌, Bool, false, List, [], ◌∷◌, map, min, leb, take, arith}
use wrk_quic.Platform.{Floating, Histogram}
use wrk_quic.EventLoop.{EventLoop}
use wrk_quic.Connection.{Config}
use wrk_quic.Quic.{Picoquic, World}
use wrk_quic.Quic.Callback.{Preparing, prepare, begin_request, chunk}

-- Successive calls of `provide`.
abbrev pub provide_all : {Q : Type 0} → Picoquic Q → List (List ℕ × Bool) → Q → Q
provide_all pico [] q = q
provide_all pico ((bytes, is_fin) ∷ rest) q = provide_all pico rest (pico.provide q bytes is_fin).0

module _ {V Hist Loop Q : Type 0} (f : Floating V) (h : Histogram V Hist) (ae : EventLoop Loop)
    (pico : Picoquic Q) (cfg : Config) (static : cfg.dynamic ≡ false) where
  -- Packets with their room.
  abbrev pub prepare_all : List (ℕ × Preparing) → World V Hist Loop Q → World V Hist Loop Q
  prepare_all [] w = w
  prepare_all ((space, r) ∷ rest) w = prepare_all rest (prepare f h ae pico cfg space r w).1

  -- The first bytes of a request that fit into `space`.
  abbrev pub first_bytes : ℕ → List ℕ → ℕ × Preparing → List ℕ × Bool
  first_bytes length request (space, r) = (take (min length space) request, leb length space)

  prepare-conn :
      (space : ℕ) (r : Preparing) (w : World V Hist Loop Q)
      → w.ctx.conn.written ≡ 0
      → let w' = (prepare f h ae pico cfg space r w).1 in
        (w'.ctx.conn.written ≡ 0)
        × (w'.ctx.conn.length ≡ w.ctx.conn.length)
        × (w'.ctx.conn.request ≡ w.ctx.conn.request)
  unfolding prepare begin_request chunk
  prepare-conn space r w fresh = ground (arith, static, fresh)

  prepare-quic :
      (space : ℕ) (r : Preparing) (w : World V Hist Loop Q)
      → w.ctx.conn.written ≡ 0
      → (prepare f h ae pico cfg space r w).1.quic
        ≡ (pico.provide w.quic
            (take (min w.ctx.conn.length space) w.ctx.conn.request)
            (leb w.ctx.conn.length space)).0
  unfolding prepare begin_request chunk
  prepare-quic space r w fresh = rw (static, fresh) refl

  -- A request that is not made by a script is handed over from its first byte in every packet: each
  -- of the packets of a connection gets the first bytes that fit, and ends the stream exactly if the
  -- whole request fits into it. What an earlier packet has taken is not taken into account.
  pub prepare_all-first_bytes :
      (packets : List (ℕ × Preparing)) (w : World V Hist Loop Q)
      → w.ctx.conn.written ≡ 0
      → (prepare_all packets w).quic
        ≡ provide_all pico (map (first_bytes w.ctx.conn.length w.ctx.conn.request) packets) w.quic
  prepare_all-first_bytes [] w fresh = refl
  prepare_all-first_bytes ((space, r) ∷ rest) w fresh =
      let (fresh', same_length, same_request) = prepare-conn space r w fresh in
      let all : World V Hist Loop Q → ℕ → List ℕ → Q =
        λ v n request. provide_all pico (map (first_bytes n request) rest) v.quic in
      let w' = (prepare f h ae pico cfg space r w).1 in
      prepare_all-first_bytes rest w' fresh'
      ∙ ap (λ n. all w' n w'.ctx.conn.request) same_length
      ∙ ap (λ request. all w' w.ctx.conn.length request) same_request
      ∙ ap (provide_all pico (map (first_bytes w.ctx.conn.length w.ctx.conn.request) rest))
          (prepare-quic space r w fresh)
