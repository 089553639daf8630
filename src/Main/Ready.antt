-- ===== src/Main/Ready.antt =====
-- What holds once `main` of src/wrk.c has started the threads.
use wrk_quic.Prelude.{
  ℕ, zero, suc, ◌<◌, ◌/◌, ◌≡◌, refl, ap, ◌∙◌, false, ◌⊎◌, inl, inr, List, [], ◌∷◌, ◌++◌, ◌==◌,
  length, map, replicate, arith, add64, mul64, append_assoc, append-nil, Option-cases, Bool-cases,
  subst, sym, ap₂, ℤ, pos, negsuc,
}
use wrk_quic.Platform.{Floating}
use wrk_quic.Connection.{Config, Thread}
use wrk_quic.Url.{Parts}
use wrk_quic.Lua.{Lua}
use wrk_quic.Startup.{new_thread, share}
use wrk_quic.Script.Position.{verified-positive}
use wrk_quic.Main.{
  then_do, Ending, Created, Running, count_requests, configure, prepare_thread, add_created,
  start_threads,
}

module _ {A B : Type 0} where
  cases : (x : A ⊎ B) → ((a : A) × (x ≡ inl a)) ⊎ ((b : B) × (x ≡ inr b))
  cases (inl a) = inl (a, refl)
  cases (inr b) = inr (b, refl)

module _ {L N : Type 0} (lua : Lua L N) (http_parser_execute : List ℕ → ℕ × ℕ) where
  counted-positive :
      (version : ℤ) (l : L) (n : ℕ)
      → (count_requests lua http_parser_execute version l).1 ≡ inl n
      → 0 < n
  unfolding count_requests
  counted-positive (pos v) l n h = verified-positive lua http_parser_execute l n h
  counted-positive (negsuc v) l n h = ground (arith, h)

module _ {V : Type 0} (f : Floating V) (now : ℕ) where
  -- What the configuration asks for a thread: its connections, its end, and its rate.
  abbrev pub asked : Config → ℕ × (ℕ × V)
  asked cfg = (
    cfg.connections / cfg.threads,
    (add64 now (mul64 cfg.duration 1000000), f.div (f.of_u64 cfg.rate) (f.of_u64 cfg.threads)),
  )

-- What a thread got of these.
abbrev pub given : {L V Hist Loop : Type 0} → Thread V Hist Loop × L → ℕ × (ℕ × V)
given (t, own) = (t.connections, (t.stop_at, t.throughput))

map-append : {A B : Type 0} (g : A → B) (xs ys : List A) → map g (xs ++ ys) ≡ map g xs ++ map g ys
map-append g [] ys = refl
map-append g (x ∷ xs) ys = ap (λ l. g x ∷ l) (map-append g xs ys)

module _ {L N V Hist Loop : Type 0} (lua : Lua L N) (f : Floating V)
    (http_parser_execute : List ℕ → ℕ × ℕ) (call_setup : L → L → L × L) (now : ℕ) where
  -- What a thread's preparation leaves, also of the configuration that threads are made from.
  record Kept (cfg : Config) (threads : List (Thread V Hist Loop × L)) (s' : Running L V Hist Loop)
      : Type 0 where
    positive : 0 < s'.cfg.pipeline
    asks : asked f now s'.cfg ≡ asked f now cfg
    same_threads : s'.threads ≡ threads

  abbrev Prepared :
      Config → List (Thread V Hist Loop × L) → Ending ⊎ (Running L V Hist Loop × L) → Type 0
  Prepared cfg threads (inl e) = Unit
  Prepared cfg threads (inr (s', own)) = Kept cfg threads s'

  configure-Prepared :
      (s : Running L V Hist Loop) (l : L)
      → Prepared s.cfg s.threads (configure lua f http_parser_execute call_setup s l)
  unfolding configure
  configure-Prepared s l =
      elim (cases (count_requests lua http_parser_execute s.cfg.http_version l).1) [
        | inr (place, e) ↦ rw (Prepared, configure, e) tt
        | inl (n, e) ↦
            rw (Prepared, configure, e)
              (record {
                positive = counted-positive lua http_parser_execute s.cfg.http_version l n e;
                asks = refl;
                same_threads = refl;
              })
      ]

  -- The threads that are there after `n` more.
  record Added (s : Running L V Hist Loop) (n : ℕ) (r : Running L V Hist Loop) : Type 0 where
    positive : 0 < r.cfg.pipeline
    shares : map given r.threads ≡ map given s.threads ++ replicate n (asked f now s.cfg)

  abbrev Ran : Running L V Hist Loop → ℕ → Ending ⊎ Running L V Hist Loop → Type 0
  Ran s n (inl e) = Unit
  Ran s n (inr r) = Added s n r

  Ran-weaken :
      (s s' : Running L V Hist Loop) (n n' : ℕ) (x : Ending ⊎ Running L V Hist Loop)
      → ((r : Running L V Hist Loop) → Added s n r → Added s' n' r)
      → Ran s n x
      → Ran s' n' x
  Ran-weaken s s' n n' (inl e) g a = tt
  Ran-weaken s s' n n' (inr r) g a = g r a

  module _ (url : List ℕ) (parts : Parts) (headers args : List (List ℕ)) (null : Hist) where
    abbrev start : ℕ → List (Created Loop) → Running L V Hist Loop → Ending ⊎ Running L V Hist Loop
    start = start_threads lua f http_parser_execute call_setup url parts headers args now null

    prepare_thread-Prepared :
        (i : ℕ) (s : Running L V Hist Loop)
        → (i ≡ 0) ⊎ (0 < s.cfg.pipeline)
        → Prepared s.cfg s.threads (
            prepare_thread lua f http_parser_execute call_setup url parts headers args now null i s)
    unfolding prepare_thread
    prepare_thread-Prepared zero s started = configure-Prepared _ _
    prepare_thread-Prepared (suc i) s (inl e) = absurd (omega arith)
    prepare_thread-Prepared (suc i) s (inr positive) =
        let later : (suc i == 0) ≡ false = ground arith in
        rw (Prepared, prepare_thread, later)
          (record { positive = positive; asks = refl; same_threads = refl })

    -- One more thread is what the configuration asks for.
    one_more :
        (s s' : Running L V Hist Loop) (loop : Loop) (own : L) (n : ℕ)
        → Kept s.cfg s.threads s'
        → (r : Running L V Hist Loop)
        → Added
            (record s' {
              threads = s'.threads ++ ((new_thread f now s'.cfg loop null null, own) ∷ []);
            })
            n
            r
        → Added s (suc n) r
    unfolding new_thread share
    one_more s s' loop own n k r a = record {
      positive = a.positive;
      shares =
          a.shares
          ∙ ap (λ l. l ++ replicate n (asked f now s'.cfg)) (map-append given s'.threads _)
          ∙ append_assoc (map given s'.threads) _ _
          ∙ ap₂ (λ ts x. map given ts ++ (x ∷ replicate n x)) k.same_threads k.asks;
    }

    after_add :
        (i n : ℕ) (g : Created Loop) (own : L) (s s' : Running L V Hist Loop)
        → Kept s.cfg s.threads s'
        → (k : Running L V Hist Loop → Ending ⊎ Running L V Hist Loop)
        → ((s'' : Running L V Hist Loop) → 0 < s''.cfg.pipeline → Ran s'' n (k s''))
        → Ran s (suc n) (
            then_do
              (add_created lua f http_parser_execute call_setup url parts headers args now null i g
                own s')
              k)
    unfolding add_created then_do
    after_add i n g own s s' kept k later = elim (Option-cases g.loop) [
      | inl none_made ↦ rw (Ran, add_created, none_made) tt
      | inr (loop, made) ↦ elim (Bool-cases g.started) [
        | inl started ↦
            rw (add_created, made, started)
              (Ran-weaken _ s n (suc n) _ (one_more s s' (g.set_up loop) own n kept)
                (later _ kept.positive))
        | inr failed ↦ rw (Ran, add_created, made, failed) tt
      ]
    ]

    after_prepare :
        (n : ℕ) (s : Running L V Hist Loop) (x : Ending ⊎ (Running L V Hist Loop × L))
        → Prepared s.cfg s.threads x
        → (k : Running L V Hist Loop × L → Ending ⊎ Running L V Hist Loop)
        → ((s' : Running L V Hist Loop) (own : L) → Kept s.cfg s.threads s' → Ran s n (k (s', own)))
        → Ran s n (then_do x k)
    unfolding then_do
    after_prepare n s (inl e) p k later = tt
    after_prepare n s (inr (s', own)) p k later = later s' own p

    -- One round of the loop, if the rest of it is right.
    step :
        (i : ℕ) (g : Created Loop) (rest : List (Created Loop)) (s : Running L V Hist Loop)
        → (i ≡ 0) ⊎ (0 < s.cfg.pipeline)
        → ((s' : Running L V Hist Loop)
            → 0 < s'.cfg.pipeline
            → Ran s' (length rest) (start (suc i) rest s'))
        → Ran s (suc (length rest)) (start i (g ∷ rest) s)
    unfolding start_threads
    step i g rest s started later =
        after_prepare _ s _ (prepare_thread-Prepared i s started) _
          (λ s' own kept. after_add i (length rest) g own s s' kept (start (suc i) rest) later)

    rest-Ran :
        (created : List (Created Loop)) (i : ℕ) (s : Running L V Hist Loop)
        → 0 < s.cfg.pipeline
        → Ran s (length created) (start i created s)
    unfolding start_threads
    rest-Ran [] i s positive = record { positive = positive; shares = sym (append-nil _) }
    rest-Ran (g ∷ rest) i s positive =
        step i g rest s (inr positive) (λ s' p. rest-Ran rest (suc i) s' p)

    -- If `main` gets to the end of the loop over at least one thread, there are as many threads as it
    -- began to create, each with the same share of the connections, the same end and the same rate,
    -- those that the options ask for, and the number of pending responses that a batch counts down
    -- from is not 0.
    pub start_threads-shares :
        (created : List (Created Loop)) (s r : Running L V Hist Loop)
        → 0 < length created
        → s.threads ≡ []
        → start_threads lua f http_parser_execute call_setup url parts headers args now null 0
            created s
          ≡ inr r
        → (0 < r.cfg.pipeline)
          × (map given r.threads ≡ replicate (length created) (asked f now s.cfg))
    start_threads-shares [] s r some_thread none_yet h = absurd (omega arith)
    start_threads-shares (g ∷ rest) s r some_thread none_yet h =
        let a : Added s (suc (length rest)) r =
          subst (Ran s (suc (length rest))) h
            (step 0 g rest s (inl refl) (λ s' p. rest-Ran rest 1 s' p)) in
        (
          a.positive,
          a.shares
              ∙ ap (λ ts. map given ts ++ replicate (suc (length rest)) (asked f now s.cfg))
                  none_yet,
        )
