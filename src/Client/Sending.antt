-- ===== src/Client/Sending.antt =====
-- What `send_all` hands to the kernel.
use local_cache_service.Base.{
  ℕ, zero, suc, ◌+◌, ◌-◌, ◌≤◌, ◌<◌, ◌≡◌, ◌≢◌, ◌⊎◌, inl, inr, refl, sym, ap, ◌∙◌, List, [], ◌∷◌,
  ◌++◌, map, append_assoc, arith, Option, some, none, Bool-cases, ltb, Bytes, length, take, drop,
  min, All, drop-drop, take-append-drop,
}
use local_cache_service.Client.Defs.{
  ClientError, Send, sends, interrupts, would_block, fails, send_all, and_sent, send_timed_out,
  send_failed,
}

abbrev pub Outcome : Type 0
Outcome = Bytes × Option ClientError

-- What was sent is a front part of what there was to send, and all of it unless an error came.
pub record IsSent (frame : Bytes) (sent : Bytes) (e : Option ClientError) : Type 0 where
  pub rest : Bytes
  pub split : frame ≡ sent ++ rest
  pub whole : (rest ≡ []) ⊎ (e ≢ none)
  pub kind : (e ≡ none) ⊎ ((e ≡ some send_timed_out) ⊎ (e ≡ some send_failed))

drop-all : (n : ℕ) (xs : Bytes) → length xs ≤ n → drop n xs ≡ []
drop-all zero [] h = refl
drop-all zero (x ∷ xs) h = absurd (omega arith)
drop-all (suc n) [] h = refl
drop-all (suc n) (x ∷ xs) h = drop-all n xs (omega arith)

cut : (n s : ℕ) (frame : Bytes) → take n (drop s frame) ++ drop (s + n) frame ≡ drop s frame
cut n s frame =
    ap (λ (b : Bytes). take n (drop s frame) ++ b) (sym (drop-drop n s frame))
    ∙ take-append-drop n (drop s frame)

answer-eq :
    {sent sent' : Bytes} {e e' : Option ClientError}
    → ◌≡◌ {A = Option Outcome} (some (sent', e')) (some (sent, e))
    → (sent' ≡ sent) × (e' ≡ e)
answer-eq h = (cc, cc)

and_sent-some :
    (bytes : Bytes) (o : Option Outcome) {sent : Bytes} {e : Option ClientError}
    → and_sent bytes o ≡ some (sent, e)
    → (more : Bytes) × (o ≡ some (more, e)) × (sent ≡ bytes ++ more)
and_sent-some bytes none h = cc
and_sent-some bytes (some (more, x)) h = (more, cc, cc)

module _ (frame : Bytes) where
  all-IsSent :
      (s : ℕ) {sent : Bytes} {e : Option ClientError}
      → length frame ≤ s
      → ◌≡◌ {A = Option Outcome} (some ([], none)) (some (sent, e))
      → IsSent (drop s frame) sent e
  all-IsSent s {sent} {e} h k =
      let (p, q) = answer-eq k in
      let gone = drop-all s frame h in
      record {
        rest = [];
        split = gone ∙ ap (λ (b : Bytes). b ++ []) p;
        whole = inl refl;
        kind = inl (sym q);
      }

  stopped :
      (s : ℕ) (x : ClientError) {sent : Bytes} {e : Option ClientError}
      → (x ≡ send_timed_out) ⊎ (x ≡ send_failed)
      → ◌≡◌ {A = Option Outcome} (some ([], some x)) (some (sent, e))
      → IsSent (drop s frame) sent e
  stopped s x y k =
      let (p, q) = answer-eq k in
      record {
        rest = drop s frame;
        split = ap (λ (b : Bytes). b ++ drop s frame) p;
        whole = inr (λ h. cc);
        kind = inr (elim y [ inl z ↦ inl (sym q ∙ ap some z) | inr z ↦ inr (sym q ∙ ap some z) ]);
      }

  pub send_all-IsSent :
      (answers : List Send) (s : ℕ) {sent : Bytes} {e : Option ClientError}
      → send_all frame s answers ≡ some (sent, e)
      → IsSent (drop s frame) sent e
  unfolding send_all
  send_all-IsSent [] s k = elim (Bool-cases (ltb s (length frame))) [
    | inl more ↦ absurd (ground (arith, more, k))
    | inr done ↦ all-IsSent s (ground (arith, done)) (ground (arith, done, k))
  ]
  send_all-IsSent (sends given ∷ answers) s {sent} {e} k =
      elim (Bool-cases (ltb s (length frame))) [
        | inr done ↦ all-IsSent s (ground (arith, done)) (ground (arith, done, k))
        | inl more ↦
            let n = min given (length frame - s) in
            let bytes = take n (drop s frame) in
            elim (Bool-cases (ltb 0 n)) [
              | inr nothing ↦ stopped s send_failed (inr refl) (ground (arith, more, nothing, k))
              | inl some_bytes ↦
                  let rest = send_all frame (s + n) answers in
                  let (left, run, sent_is) =
                    and_sent-some bytes rest (ground (arith, more, some_bytes, k)) in
                  let f = send_all-IsSent answers (s + n) run in
                  record {
                    rest = f.rest;
                    split =
                        sym (cut n s frame)
                        ∙ ap (λ (b : Bytes). bytes ++ b) f.split
                        ∙ sym (append_assoc bytes left f.rest)
                        ∙ ap (λ (b : Bytes). b ++ f.rest) (sym sent_is);
                    whole = f.whole;
                    kind = f.kind;
                  }
            ]
      ]
  send_all-IsSent (interrupts ∷ answers) s k = elim (Bool-cases (ltb s (length frame))) [
    | inl more ↦ send_all-IsSent answers s (ground (arith, more, k))
    | inr done ↦ all-IsSent s (ground (arith, done)) (ground (arith, done, k))
  ]
  send_all-IsSent (would_block ∷ answers) s k = elim (Bool-cases (ltb s (length frame))) [
    | inl more ↦ stopped s send_timed_out (inl refl) (ground (arith, more, k))
    | inr done ↦ all-IsSent s (ground (arith, done)) (ground (arith, done, k))
  ]
  send_all-IsSent (fails ∷ answers) s k = elim (Bool-cases (ltb s (length frame))) [
    | inl more ↦ stopped s send_failed (inr refl) (ground (arith, more, k))
    | inr done ↦ all-IsSent s (ground (arith, done)) (ground (arith, done, k))
  ]

  -- As many sends as there are bytes are enough, when each takes one at least.
  pub send_all_completes :
      (given : List ℕ) (s : ℕ)
      → All (λ n. 0 < n) given
      → length frame ≤ s + length given
      → send_all frame s (map sends given) ≡ some (drop s frame, none)
  unfolding send_all
  send_all_completes [] s h enough = ground (arith, drop-all s frame)
  send_all_completes (g ∷ given) s (positive, h) enough =
      let n = min g (length frame - s) in
      elim (Bool-cases (ltb s (length frame))) [
        | inr done ↦ ground (arith, done, drop-all s frame)
        | inl more ↦
            let rest = send_all_completes given (s + n) h (ground arith) in
            let joined : and_sent (take n (drop s frame)) (some (drop (s + n) frame, none))
                ≡ some (drop s frame, none) =
              ap (λ (b : Bytes). some (b, none)) (cut n s frame) in
            ground (arith, more, rest, joined)
      ]
