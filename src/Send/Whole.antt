-- ===== src/Send/Whole.antt =====
-- What `sock_writeable` of src/wrk.c puts on a socket: `c->request + c->written` and the bytes behind it.
use wrk_quic.Prelude.{
  ℕ, zero, suc, ◌+◌, ◌<◌, ◌^◌, ◌≡◌, ◌≢◌, refl, ap, sym, ◌∙◌, arith, List, [], ◌∷◌, ◌++◌, ◌==◌,
  if◌then◌else◌, length, take, drop, append-nil, append_assoc,
}
use native.Mathlib.Decide.{ℕ_discrete}
use wrk_quic.Platform.{Floating}
use wrk_quic.Connection.{Connection, Config}
use wrk_quic.Pacing.{usec_to_next_send}
use wrk_quic.Send.{Sending, begin_batch}

abbrev pub joined : List (List ℕ) → List ℕ
joined [] = []
joined (x ∷ xs) = x ++ joined xs

pub joined-append : (xs : List (List ℕ)) (x : List ℕ) → joined (xs ++ (x ∷ [])) ≡ joined xs ++ x
joined-append [] x = append-nil x
joined-append (y ∷ ys) x = ap (y ++◌) (joined-append ys x) ∙ sym (append_assoc y (joined ys) x)

take-nil : (n : ℕ) → take {A = ℕ} n [] ≡ []
take-nil zero = refl
take-nil (suc n) = refl

pub take-add : (m n : ℕ) (xs : List ℕ) → take m xs ++ take n (drop m xs) ≡ take (m + n) xs
take-add zero n xs = ap (λ k. take k xs) (omega arith)
take-add (suc m) n [] = take-nil n ∙ sym (take-nil (suc m + n))
take-add (suc m) n (x ∷ xs) =
    ap (x ∷◌) (take-add m n xs) ∙ ap (λ k. take k (x ∷ xs)) {x = suc (m + n)} (omega arith)

pub take-length : (xs : List ℕ) → take (length xs) xs ≡ xs
take-length [] = refl
take-length (x ∷ xs) = ap (x ∷◌) (take-length xs)

-- The request of a connection is a block of `length` bytes, and the cursor lies inside it.
pub record IsWhole {V : Type 0} (c : Connection V) : Type 0 where
  pub size : c.length ≡ length c.request
  pub small : c.length < 2 ^ 64
  pub inside : 0 < c.written → c.written < c.length

-- The cursor, the request and its length are the same.
pub record SameRequest {V : Type 0} (c c' : Connection V) : Type 0 where
  pub same_request : c'.request ≡ c.request
  pub same_length : c'.length ≡ c.length
  pub same_written : c'.written ≡ c.written

-- After `taken` more bytes of the request of `b`, of which `b.written` were taken before.
pub record Takes {V : Type 0} (taken : ℕ) (b c : Connection V) : Type 0 where
  pub request : c.request ≡ b.request
  pub length : c.length ≡ b.length
  pub written : c.written ≡ (if b.written + taken == b.length then 0 else b.written + taken)

module _ {V : Type 0} where
  pub SameRequest-IsWhole : {c c' : Connection V} → SameRequest c c' → IsWhole c → IsWhole c'
  SameRequest-IsWhole same w = record {
    size = same.same_length ∙ w.size ∙ ap length (sym same.same_request);
    small = omega (arith, same.same_length, w.small);
    inside = λ p. omega (arith, same.same_length, same.same_written, w.inside, p);
  }

  pub begin_batch-IsWhole :
      (cfg : Config) (r : Sending) (c : Connection V)
      → length r.request < 2 ^ 64
      → IsWhole c
      → IsWhole (begin_batch cfg r c)
  unfolding begin_batch
  begin_batch-IsWhole cfg r c small w = record {
    size = ground (arith, w.size);
    small = ground (arith, w.small, small);
    inside = λ p. ground (arith, w.inside, p);
  }

  -- A request that is not begun is left alone.
  begin_batch-going :
      (cfg : Config) (r : Sending) (c : Connection V) → c.written ≢ 0 → begin_batch cfg r c ≡ c
  unfolding begin_batch
  begin_batch-going cfg r c going = ground (arith, going)

  pub begin_batch-written :
      (cfg : Config) (r : Sending) (c : Connection V) → (begin_batch cfg r c).written ≡ c.written
  unfolding begin_batch
  begin_batch-written cfg r c = ground arith

  -- The bytes before the cursor are those of the request that goes on, or none.
  pub begin_batch-before :
      (cfg : Config) (r : Sending) (c : Connection V)
      → take c.written (begin_batch cfg r c).request ≡ take c.written c.request
  begin_batch-before cfg r c = elim (ℕ_discrete c.written 0) [
    | yes none_yet ↦
        ap (λ k. take k (begin_batch cfg r c).request) none_yet
        ∙ sym (ap (λ k. take k c.request) none_yet)
    | no going ↦ ap (λ b. take c.written b.request) (begin_batch-going cfg r c going)
  ]

  pub begin_batch-SameRequest :
      (cfg : Config) (r : Sending) (c c' : Connection V)
      → SameRequest c c'
      → SameRequest (begin_batch cfg r c) (begin_batch cfg r c')
  unfolding begin_batch
  begin_batch-SameRequest cfg r c c' same = record {
    same_request = ground (arith, same.same_request, same.same_written);
    same_length = ground (arith, same.same_length, same.same_written);
    same_written = ground (arith, same.same_written);
  }

  pub usec_to_next_send-SameRequest :
      (f : Floating V) (now : ℕ) (c : Connection V) → SameRequest c (usec_to_next_send f now c).1
  unfolding usec_to_next_send
  usec_to_next_send-SameRequest f now c = ground arith
