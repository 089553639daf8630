-- ===== src/Wire/Whole.antt =====
-- Whatever the order of the callbacks, a socket carries whole requests.
use wrk_quic.Prelude.{
  ℕ, ◌+◌, ◌<◌, ◌≤◌, ◌^◌, ◌≡◌, ◌≢◌, ◌⊎◌, ap, sym, ◌∙◌, arith, some, List, [], ◌∷◌, ◌++◌, length,
  take, append-nil, append_assoc, inl, inr,
}
use native.Mathlib.Decide.{ℕ_discrete}
use wrk_quic.Platform.{Floating, Histogram}
use wrk_quic.EventLoop.{EventLoop}
use wrk_quic.Connection.{Connection, Config, Ctx}
use wrk_quic.Pacing.{usec_to_next_send}
use wrk_quic.Net.{ok, retry, first_outcome}
use wrk_quic.Send.{Sending, begin_batch, buf, len, sock_writeable}
use wrk_quic.Response.{socket_connected_as}
use wrk_quic.Send.Whole.{
  joined, joined-append, take-length, take-add, IsWhole, SameRequest, SameRequest-IsWhole, Takes,
  begin_batch-IsWhole, begin_batch-before, begin_batch-written,
}
use wrk_quic.Send.Taken.{
  going-Takes, due-Takes, early-SameRequest, blocked-SameRequest, delay_request_timer-SameRequest,
}
use wrk_quic.Response.Requests.{response_complete-SameRequest, socket_connected_as-request}
use wrk_quic.Wire.{part, finished, Wire, opens, sends, blocked, waits, fires, answers, elsewhere}

module _ {V : Type 0} where
  -- The bytes are the finished requests and what is written of the next one.
  abbrev pub Carried : List (List ℕ) → List ℕ → Connection V → Type 0
  Carried ws bs c = bs ≡ joined ws ++ take c.written c.request

  record IsCarrying (ws : List (List ℕ)) (bs : List ℕ) (c : Connection V) : Type 0 where
    whole : IsWhole c
    carried : Carried ws bs c

  same-IsCarrying :
      {ws : List (List ℕ)} {bs : List ℕ} {c c' : Connection V}
      → SameRequest c c'
      → IsCarrying ws bs c
      → IsCarrying ws bs c'
  same-IsCarrying {ws} {bs} {c} {c'} same i = record {
    whole = SameRequest-IsWhole same i.whole;
    carried =
        i.carried
        ∙ ap (λ k. joined ws ++ take k c.request) (sym same.same_written)
        ∙ ap (λ r. joined ws ++ take c'.written r) (sym same.same_request);
  }

  begin_batch-IsCarrying :
      (cfg : Config) (r : Sending) {ws : List (List ℕ)} {bs : List ℕ} (c : Connection V)
      → length r.request < 2 ^ 64
      → IsCarrying ws bs c
      → IsCarrying ws bs (begin_batch cfg r c)
  begin_batch-IsCarrying cfg r {ws} c small i = record {
    whole = begin_batch-IsWhole cfg r c small i.whole;
    carried =
        i.carried
        ∙ ap (joined ws ++◌) (sym (begin_batch-before cfg r c))
        ∙ ap (λ k. joined ws ++ take k (begin_batch cfg r c).request)
            (sym (begin_batch-written cfg r c));
  }

  taken_further :
      (ws : List (List ℕ)) (bs : List ℕ) (n : ℕ) (b : Connection V)
      → Carried ws bs b
      → bs ++ part n b ≡ joined ws ++ take (b.written + n) b.request
  unfolding buf
  taken_further ws bs n b e =
      ap (λ l. l ++ part n b) e
      ∙ append_assoc (joined ws) (take b.written b.request) (part n b)
      ∙ ap (joined ws ++◌) (take-add b.written n b.request)

  -- The request ends, or it goes on.
  taken_after :
      (ws : List (List ℕ)) (n : ℕ) (b c : Connection V)
      → IsWhole b
      → Takes n b c
      → joined (ws ++ finished n b) ++ take c.written c.request
        ≡ joined ws ++ take (b.written + n) b.request
  taken_after ws n b c w t = elim (ℕ_discrete (b.written + n) b.length) [
    | yes e ↦
        let ended : finished n b ≡ b.request ∷ [] = ground (arith, e) in
        let at_start : c.written ≡ 0 = ground (arith, e, t.written) in
        ap (λ l. joined (ws ++ l) ++ take c.written c.request) ended
        ∙ ap (λ k. joined (ws ++ (b.request ∷ [])) ++ take k c.request) at_start
        ∙ append-nil (joined (ws ++ (b.request ∷ [])))
        ∙ joined-append ws b.request
        ∙ ap (joined ws ++◌)
            (sym (take-length b.request) ∙ ap (λ k. take k b.request) (sym (e ∙ w.size)))
    | no ne ↦
        let goes_on : finished n b ≡ [] = ground (arith, ne) in
        let further : c.written ≡ b.written + n = ground (arith, ne, t.written) in
        ap (λ l. joined (ws ++ l) ++ take c.written c.request) goes_on
        ∙ ap (λ l. joined l ++ take c.written c.request) (append-nil ws)
        ∙ ap (λ k. joined ws ++ take k c.request) further
        ∙ ap (λ r. joined ws ++ take (b.written + n) r) t.request
  ]

  -- `len` does not wrap, since the cursor lies in the request.
  len_fits : (n : ℕ) (b : Connection V) → IsWhole b → n ≤ len b → b.written + n ≤ b.length
  unfolding len
  len_fits n b w h = ground (arith, w.inside, w.small, h)

  Takes-IsCarrying :
      {ws : List (List ℕ)} {bs : List ℕ} (n : ℕ) (b c : Connection V)
      → b.written + n ≤ b.length
      → Takes n b c
      → IsCarrying ws bs b
      → IsCarrying (ws ++ finished n b) (bs ++ part n b) c
  Takes-IsCarrying {ws} {bs} n b c fits t i = record {
    whole = record {
      size = t.length ∙ i.whole.size ∙ ap length (sym t.request);
      small = omega (arith, t.length, i.whole.small);
      inside = λ p. ground (arith, t.length, t.written, fits, p);
    };
    carried = taken_further ws bs n b i.carried ∙ sym (taken_after ws n b c i.whole t);
  }

module _ {V Hist Loop : Type 0} (f : Floating V) (h : Histogram V Hist) (ae : EventLoop Loop)
    (cfg : Config) (reconnect : Ctx V Hist Loop → Ctx V Hist Loop) where
  sends-IsCarrying :
      {ws : List (List ℕ)} {bs : List ℕ} (r : Sending) (n : ℕ) (x y : Ctx V Hist Loop)
      → length r.request < 2 ^ 64
      → first_outcome r.outcomes ≡ some (ok n)
      → (x.conn.written ≢ 0) ⊎ ((usec_to_next_send f r.checked x.conn).0 ≡ 0)
      → sock_writeable f ae cfg reconnect r x ≡ some y
      → n ≤ len (begin_batch cfg r x.conn)
      → IsCarrying ws bs x.conn
      → IsCarrying
          (ws ++ finished n (begin_batch cfg r x.conn))
          (bs ++ part n (begin_batch cfg r x.conn))
          y.conn
  sends-IsCarrying r n x y small first free e taken i =
      let b = begin_batch cfg r x.conn in
      let begun = begin_batch-IsCarrying cfg r x.conn small i in
      let fits = len_fits n b begun.whole taken in
      let bound : x.conn.written + n < 2 ^ 64 =
        omega (arith, begin_batch-written cfg r x.conn, fits, begun.whole.small) in
      let going = λ (ne : x.conn.written ≢ 0).
        Takes-IsCarrying n b y.conn fits (going-Takes f ae cfg reconnect r x y n ne first e bound)
          begun in
      elim (ℕ_discrete x.conn.written 0) [
        | no ne ↦ going ne
        | yes fresh ↦ elim free [
          | inl ne ↦ going ne
          | inr due_now ↦
              Takes-IsCarrying n b y.conn fits
                (due-Takes f ae cfg reconnect r x y n fresh due_now first e bound) begun
        ]
      ]

  blocked-IsCarrying :
      {ws : List (List ℕ)} {bs : List ℕ} (r : Sending) (x y : Ctx V Hist Loop)
      → length r.request < 2 ^ 64
      → first_outcome r.outcomes ≡ some retry
      → sock_writeable f ae cfg reconnect r x ≡ some y
      → IsCarrying ws bs x.conn
      → IsCarrying ws bs y.conn
  blocked-IsCarrying r x y small first e i =
      elim (blocked-SameRequest f ae cfg reconnect r x y first e) [
        | inl same ↦ same-IsCarrying same i
        | inr begun ↦ same-IsCarrying begun (begin_batch-IsCarrying cfg r x.conn small i)
      ]

  opens-IsCarrying :
      (n : ℕ) (x : Ctx V Hist Loop)
      → x.conn.length ≡ length x.conn.request
      → x.conn.length < 2 ^ 64
      → IsCarrying [] [] (socket_connected_as f h ae cfg reconnect (ok n) x).conn
  opens-IsCarrying n x size small =
      let (request, same, at_start) = socket_connected_as-request f h ae cfg reconnect n x in
      let c = (socket_connected_as f h ae cfg reconnect (ok n) x).conn in
      record {
        whole = record {
          size = same ∙ size ∙ ap length (sym request);
          small = omega (arith, same, small);
          inside = λ p. absurd (omega (arith, p, at_start));
        };
        carried = ap (λ k. take k c.request) (sym at_start);
      }

  Wire-IsCarrying :
      {ws : List (List ℕ)} {bs : List ℕ} {x : Ctx V Hist Loop}
      → Wire f h ae cfg reconnect ws bs x
      → IsCarrying ws bs x.conn
  Wire-IsCarrying (opens n x size small) = opens-IsCarrying n x size small
  Wire-IsCarrying (sends {x = x} r n y w small first free e fits) =
      sends-IsCarrying r n x y small first free e fits (Wire-IsCarrying w)
  Wire-IsCarrying (blocked {x = x} r y w small first e) =
      blocked-IsCarrying r x y small first e (Wire-IsCarrying w)
  Wire-IsCarrying (waits {x = x} r y w fresh early e) =
      same-IsCarrying (early-SameRequest f ae cfg reconnect r x y fresh early e) (Wire-IsCarrying w)
  Wire-IsCarrying (fires {x = x} now w) =
      same-IsCarrying (delay_request_timer-SameRequest f ae cfg reconnect now x) (Wire-IsCarrying w)
  Wire-IsCarrying (answers {x = x} status now w) =
      same-IsCarrying (response_complete-SameRequest f h ae cfg reconnect status now x)
        (Wire-IsCarrying w)
  Wire-IsCarrying (elsewhere t w) = record {
    whole = (Wire-IsCarrying w).whole;
    carried = (Wire-IsCarrying w).carried;
  }

  -- For requests of fewer than 2 ^ 64 bytes, each with the length that the connection records, a socket
  -- carries whole requests and the beginning of the next one, as far as the cursor says, and the cursor
  -- lies in the request, whatever parts the socket takes, at most what it is given, and whatever
  -- responses, timers and waits come between them.
  pub Wire-whole :
      (ws : List (List ℕ)) (bs : List ℕ) (x : Ctx V Hist Loop)
      → Wire f h ae cfg reconnect ws bs x
      → (bs ≡ joined ws ++ take x.conn.written x.conn.request)
        × (x.conn.written ≤ length x.conn.request)
  Wire-whole ws bs x w =
      let i = Wire-IsCarrying w in (i.carried, ground (arith, i.whole.inside, i.whole.size))
