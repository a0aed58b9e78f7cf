-- ===== src/Hunter/Client/Retry.antt =====
-- What `Evaluate` returns, by the replies and the pauses of its attempts.
use agentic_ebpf_patrol.Prelude.{
  ℕ, zero, suc, ◌+◌, ◌<◌, ◌≡◌, refl, sym, ◌∙◌, ◌↔◌, ◌⊎◌, inl, inr, true, false, not, ◌&&◌, [],
  Option, none, some, Bytes, Bool, to_i64, ◌==◌, Bool-cases, arith, if◌then◌else◌,
}
use agentic_ebpf_patrol.Hunter.{Verdict}
use agentic_ebpf_patrol.Hunter.Client.{
  Client, Reply, not_built, no_response, response, RequestError, status_ok, do_request,
  Surroundings, Evaluation, verdict, cancelled, unavailable, Trace, is_done, double, first_backoff,
  rounds_of, attempts_of, sent_request, with_pause, with_requests, attempts, evaluate,
}

-- The reply is a verdict with the status 200.
abbrev pub Answers : Reply → Verdict → Type 0
Answers r v = r ≡ response status_ok (some v)

abbrev pub Fails : Reply → Type 0
Fails r = (v : Verdict) → ¬ Answers r v

-- The context is cancelled in the pause before a retry.
abbrev pub stops : Surroundings → ℕ → Bool
stops env attempt = not (attempt == 0) && is_done (env.wake attempt)

-- From the attempt `i` on, `k` attempts fail with no cancellation, and then one answers.
abbrev pub WinsAfter : Surroundings → ℕ → ℕ → Verdict → Type 0
WinsAfter env i zero v = (stops env i ≡ false) × Answers (env.reply i) v
WinsAfter env i (suc k) v = (stops env i ≡ false) × Fails (env.reply i) × WinsAfter env (i + 1) k v

-- From the attempt `i` on, `k` attempts fail, and then the context is cancelled.
abbrev pub StopsAfter : Surroundings → ℕ → ℕ → Type 0
StopsAfter env i zero = stops env i ≡ true
StopsAfter env i (suc k) = (stops env i ≡ false) × Fails (env.reply i) × StopsAfter env (i + 1) k

-- From the attempt `i` on, `k` attempts fail with no cancellation.
abbrev pub AllFail : Surroundings → ℕ → ℕ → Type 0
AllFail env i zero = Unit {0}
AllFail env i (suc k) = (stops env i ≡ false) × Fails (env.reply i) × AllFail env (i + 1) k

-- How one request ends.
abbrev pub Ends : Reply → Type 0
Ends r =
    ((v : Verdict) × Answers r v × (do_request r ≡ inr v))
    ⊎ ((e : RequestError) × Fails r × (do_request r ≡ inl e))

pub do_request-Ends : (r : Reply) → Ends r
unfolding do_request
do_request-Ends not_built = inr (RequestError.build_request, λ v h. cc, refl)
do_request-Ends no_response = inr (RequestError.request_failed, λ v h. cc, refl)
do_request-Ends (response status none) = elim (Bool-cases (status == status_ok)) [
  | inl h ↦ rw h (inr (RequestError.decode_verdict, λ v e. cc, refl))
  | inr h ↦ rw h (inr (RequestError.http_status status, λ v e. cc, refl))
]
do_request-Ends (response status (some w)) = elim (Bool-cases (status == status_ok)) [
  | inl h ↦ rw h (inl (w, ground arith, refl))
  | inr h ↦ rw h (inr (RequestError.http_status status, λ v e. ground arith, refl))
]

-- The pause in front of an attempt, and what is left after its request.
abbrev pub paused : Trace → ℕ → ℕ → Trace
paused trace i backoff = if not (i == 0) then with_pause trace (to_i64 backoff) else trace

abbrev pub backoff_after : ℕ → ℕ → ℕ
backoff_after i backoff = if not (i == 0) then double backoff else backoff

module _ (c : Client) (env : Surroundings) (body : Bytes) (rounds i backoff : ℕ)
    (last_err : Option RequestError) (trace : Trace) where
  -- The trace after the request.
  abbrev pub requested : Trace
  requested = with_requests (paused trace i backoff) (sent_request c body (env.reply i))

  pub attempts-stop :
      stops env i ≡ true
      → attempts c env body (suc rounds) i backoff last_err trace
        ≡ (cancelled, paused trace i backoff)
  unfolding attempts
  attempts-stop h = rw h

  pub attempts-win :
      (v : Verdict)
      → stops env i ≡ false
      → do_request (env.reply i) ≡ inr v
      → attempts c env body (suc rounds) i backoff last_err trace ≡ (verdict v, requested)
  unfolding attempts
  attempts-win v h e = rw (h, e)

  pub attempts-lose :
      (x : RequestError)
      → stops env i ≡ false
      → do_request (env.reply i) ≡ inl x
      → attempts c env body (suc rounds) i backoff last_err trace
        ≡ attempts c env body rounds (i + 1) (backoff_after i backoff) (some x) requested
  unfolding attempts
  attempts-lose x h e = rw (h, e)

-- What a loop over `rounds` attempts from `i` on can return, and when.
abbrev pub Outcome : Client → Surroundings → ℕ → ℕ → Evaluation → Type 0
Outcome c env rounds i result =
    ((v : Verdict) × (k : ℕ) × (k < rounds) × WinsAfter env i k v × (result ≡ verdict v))
    ⊎ (((k : ℕ) × (k < rounds) × StopsAfter env i k × (result ≡ cancelled))
        ⊎ ((e : Option RequestError) × AllFail env i rounds
            × (result ≡ unavailable (attempts_of c.max_retries) e)))

-- One more failed attempt in front.
Outcome-suc :
    (c : Client) (env : Surroundings) (rounds i : ℕ) (result : Evaluation)
    → stops env i ≡ false
    → Fails (env.reply i)
    → Outcome c env rounds (i + 1) result
    → Outcome c env (suc rounds) i result
Outcome-suc c env rounds i result s f (inl (v, k, h, w, e)) =
    inl (v, suc k, omega arith, (s, f, w), e)
Outcome-suc c env rounds i result s f (inr (inl (k, h, w, e))) =
    inr (inl (suc k, omega arith, (s, f, w), e))
Outcome-suc c env rounds i result s f (inr (inr (x, w, e))) = inr (inr (x, (s, f, w), e))

attempts-Outcome :
    (c : Client) (env : Surroundings) (body : Bytes) (rounds i backoff : ℕ)
    (last_err : Option RequestError) (trace : Trace)
    → Outcome c env rounds i (attempts c env body rounds i backoff last_err trace).0
attempts-Outcome c env body zero i backoff last_err trace =
    inr (inr (last_err, tt, unfold attempts in refl))
attempts-Outcome c env body (suc rounds) i backoff last_err trace =
    elim (Bool-cases (stops env i)) [
      | inl stop ↦
          rw (attempts-stop c env body rounds i backoff last_err trace stop)
            (inr (inl (0, omega arith, stop, refl)))
      | inr go ↦ elim (do_request-Ends (env.reply i)) [
        | inl (v, a, e) ↦
            rw (attempts-win c env body rounds i backoff last_err trace v go e)
              (inl (v, 0, omega arith, (go, a), refl))
        | inr (x, f, e) ↦
            let t = requested c env body rounds i backoff last_err trace in
            rw (attempts-lose c env body rounds i backoff last_err trace x go e) (
              Outcome-suc c env rounds i _ go f
                (attempts-Outcome c env body rounds (i + 1) (backoff_after i backoff) (some x) t))
      ]
    ]

-- `Evaluate` on a marshalled event, for every retry setting and all surroundings, does one of three
-- things. It returns the verdict of an attempt that is answered, every attempt before it having
-- failed, and no pause having been cancelled; or it stops because the context is cancelled in the
-- pause after attempts that all failed; or every one of its attempts fails, and the error counts
-- them. An attempt's number is below `maxRetries + 1`.
pub evaluate-Outcome :
    (c : Client) (env : Surroundings) (body : Bytes)
    → Outcome c env (rounds_of c.max_retries) 0 (evaluate c env (some body)).0
unfolding evaluate
evaluate-Outcome c env body =
    attempts-Outcome c env body (rounds_of c.max_retries) 0 first_backoff none _

-- The first answer is found: the loop returns it when the attempts before it fail.
attempts-WinsAfter :
    (c : Client) (env : Surroundings) (body : Bytes) (rounds i backoff : ℕ)
    (last_err : Option RequestError) (trace : Trace) (v : Verdict) (k : ℕ)
    → k < rounds
    → WinsAfter env i k v
    → (attempts c env body rounds i backoff last_err trace).0 ≡ verdict v
attempts-WinsAfter c env body zero i backoff last_err trace v k h w = absurd (omega arith)
attempts-WinsAfter c env body (suc rounds) i backoff last_err trace v zero h (go, a) =
    elim (do_request-Ends (env.reply i)) [
      | inl (u, b, e) ↦
          rw (attempts-win c env body rounds i backoff last_err trace u go e) (cc (a, b))
      | inr (x, f, e) ↦ absurd (f v a)
    ]
attempts-WinsAfter c env body (suc rounds) i backoff last_err trace v (suc k) h (go, fail, w) =
    elim (do_request-Ends (env.reply i)) [
      | inl (u, b, e) ↦ absurd (fail u b)
      | inr (x, f, e) ↦ rw (attempts-lose c env body rounds i backoff last_err trace x go e) (
          attempts-WinsAfter c env body rounds (i + 1) (backoff_after i backoff) (some x)
            (requested c env body rounds i backoff last_err trace) v k (omega arith) w)
    ]

verdict-injective : {u v : Verdict} → verdict u ≡ verdict v → u ≡ v
verdict-injective h = cc

-- `Evaluate` on a marshalled event returns a verdict exactly when it is the answer to some attempt
-- below `maxRetries + 1`, all attempts before it failed, and no pause up to it was cancelled.
pub evaluate-verdict_iff :
    (c : Client) (env : Surroundings) (body : Bytes) (v : Verdict)
    → ((evaluate c env (some body)).0 ≡ verdict v)
      ↔ ((k : ℕ) × (k < rounds_of c.max_retries) × WinsAfter env 0 k v)
unfolding evaluate
evaluate-verdict_iff c env body v = (
  λ h. elim (attempts-Outcome c env body (rounds_of c.max_retries) 0 first_backoff none start) [
    | inl (u, k, below, w, e) ↦
        let same : u ≡ v = verdict-injective (sym e ∙ h) in (k, below, rw same at w)
    | inr (inl (k, below, w, e)) ↦ cc
    | inr (inr (x, w, e)) ↦ cc
  ],
  λ (k, below, w).
      attempts-WinsAfter c env body (rounds_of c.max_retries) 0 first_backoff none start v k below
        w,
)
  where
    start : Trace
    start = record { pauses = []; requests = [] }
