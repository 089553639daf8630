-- ===== src/Main.antt =====
-- `main` of src/wrk.c around the threads: the transport, the service, the loop that starts them, and
-- what a script gets when they have ended. What the system and the libraries give for each thread are
-- arguments. Signals, affinity and what is printed are left out.
pub mod Ready
mod Tests
use wrk_quic.Prelude.{
  ℕ, suc, ◌+◌, Bool, true, false, not, ◌⊎◌, inl, inr, Option, none, some, List, [], ◌∷◌, ◌++◌, ◌==◌,
  if◌then◌else◌, ℤ, pos, negsuc, take,
}
use wrk_quic.Platform.{Floating}
use wrk_quic.Connection.{Config, Thread, Proto, tcp_proto, quic_proto}
use wrk_quic.Url.{Parts}
use wrk_quic.Lua.{Lua, bytes, same}
use wrk_quic.Script.{
  script_create, script_init, script_is_static, script_want_response, script_has_done,
  script_summary, script_errors, script_done,
}
use wrk_quic.Report.{Totals}
use wrk_quic.Script.Position.{script_verify_request}
use wrk_quic.Startup.{new_thread}

-- The functions in `sock`: none for QUIC, those of src/ssl.c, or those of src/net.c.
pub data Transport : Type 0 where
  quic tls plain : Transport

abbrev is_quic : Proto → Bool
is_quic tcp_proto = false
is_quic quic_proto = true

-- The choice of `sock`. `schema` is compared with `strncmp` in its first five bytes.
pub transport : Config → List ℕ → Transport
transport cfg schema =
    if is_quic cfg.proto then quic else if same (take 5 schema) (bytes "https") then tls else plain

-- `service`, for the schema and the port that `copy_url_part` gives.
pub service : List ℕ → Option (List ℕ) → List ℕ
service schema none = schema
service schema (some port) = port

-- How the loop over the threads ends the program: a request of the script that is no request, with
-- the place where the parser stopped, or a thread that cannot be created, with its place.
pub data Ending : Type 0 where
  bad_request : ℕ × ℕ → Ending
  no_thread : ℕ → Ending

-- What `aeCreateEventLoop` gives for a thread, what the function `setup` of the script, which gets the
-- thread, does to the loop by `thread:stop`, and whether `pthread_create` succeeds.
pub record Created (Loop : Type 0) : Type 0 where
  pub loop : Option Loop
  pub set_up : Loop → Loop
  pub started : Bool

-- `L`, `cfg`, whether the parser calls `header_field`, `header_value` and `response_body`, and the
-- threads with their states of Lua.
pub record Running (L V Hist Loop : Type 0) : Type 0 where
  pub state : L
  pub cfg : Config
  pub reads_response : Bool
  pub threads : List (Thread V Hist Loop × L)

-- What follows if nothing has ended the program.
unfoldable pub then_do : {A B : Type 0} → Ending ⊎ A → (A → Ending ⊎ B) → Ending ⊎ B
then_do (inl e) k = inl e
then_do (inr a) k = k a

-- The number of requests in what the script makes, or 1 for a version below 0.
count_requests : {L N : Type 0} → Lua L N → (List ℕ → ℕ × ℕ) → ℤ → L → L × (ℕ ⊎ (ℕ × ℕ))
count_requests lua http_parser_execute (pos version) l =
    script_verify_request lua http_parser_execute l
count_requests lua http_parser_execute (negsuc version) l = (l, inl 1)

module _ {L N V Hist Loop : Type 0} (lua : Lua L N) (f : Floating V)
    (http_parser_execute : List ℕ → ℕ × ℕ) (call_setup : L → L → L × L) where
  -- What is asked of the state of the first thread.
  configure : Running L V Hist Loop → L → Ending ⊎ (Running L V Hist Loop × L)
  unfolding count_requests
  configure s l =
      let (l', counted) = count_requests lua http_parser_execute s.cfg.http_version l in
      elim counted [
        | inr place ↦ inl (bad_request place)
        | inl count ↦
            let (l'', static) = script_is_static lua l' in
            let (l''', wanted) = script_want_response lua l'' in
            inr (
              record s {
                cfg = record (s.cfg) { pipeline = count; dynamic = not static };
                reads_response = if wanted then true else s.reads_response;
              },
              l''',
            )
      ]

  module _ (url : List ℕ) (parts : Parts) (headers args : List (List ℕ)) (now : ℕ)
      (null : Hist) where
    -- The thread `i` up to the call of `pthread_create`: its state of Lua.
    prepare_thread : ℕ → Running L V Hist Loop → Ending ⊎ (Running L V Hist Loop × L)
    unfolding configure
    prepare_thread i s =
        let own =
          script_create lua s.cfg.script url parts headers (not (is_quic s.cfg.proto))
            s.cfg.http_version in
        let (l, own') = script_init lua call_setup i args s.state own in
        let s' = record s { state = l } in if i == 0 then configure s' own' else inr (s', own')

    -- A thread that is created, behind those that are there.
    add_created : ℕ → Created Loop → L → Running L V Hist Loop → Ending ⊎ Running L V Hist Loop
    add_created i g own s = elim g.loop [
      | none ↦ inl (no_thread i)
      | some loop ↦
          if g.started
          then inr (record s {
            threads = s.threads ++ ((new_thread f now s.cfg (g.set_up loop) null null, own) ∷ []);
          })
          else inl (no_thread i)
    ]

    -- The loop over the threads, from the place `i` on.
    pub start_threads :
        ℕ → List (Created Loop) → Running L V Hist Loop → Ending ⊎ Running L V Hist Loop
    unfolding prepare_thread add_created
    start_threads i [] s = inr s
    start_threads i (g ∷ rest) s =
        then_do (prepare_thread i s)
          (λ (s', own). then_do (add_created i g own s') (start_threads (suc i) rest))

-- The end of `main`: a script with a function `done` gets the totals, the counters of errors and, as
-- user values that are named by numbers, the two `stats`.
pub call_done : {L N Hist : Type 0} → Lua L N → ℕ → Totals Hist → ℕ → ℕ → L → L
call_done lua runtime_us t latency_stats requests l =
    let (l', found) = script_has_done lua l in
    let summed = script_summary lua runtime_us t.complete t.bytes l' in
    if found then script_done lua latency_stats requests (script_errors lua t.errors summed) else l'
