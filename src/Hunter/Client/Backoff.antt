-- ===== src/Hunter/Client/Backoff.antt =====
-- The pauses of `Evaluate`, and the requests that it sends.
use native.Mathlib.Nat.{pow-suc}
use agentic_ebpf_patrol.Prelude.{
  ℕ, zero, suc, ◌+◌, ◌-◌, ◌*◌, ◌^◌, ◌≤◌, ◌≡◌, refl, ap, inl, inr, ℤ, pos, to_i64, false, List, [],
  ◌∷◌, ◌++◌, Option, none, some, Bytes, codes, length, length-append, All, All-append, lt→ltb, ◌==◌,
  Bool-cases, arith,
}
use agentic_ebpf_patrol.Hunter.Client.{
  Client, Reply, not_built, no_response, response, RequestError, Surroundings, Request, Trace,
  sent_request, first_backoff, double, rounds_of, attempts, evaluate,
}
use agentic_ebpf_patrol.Hunter.Client.Retry.{
  stops, do_request-Ends, paused, backoff_after, requested, attempts-stop, attempts-win,
  attempts-lose,
}

-- 200 ms doubled `j` times, as an unbounded number.
abbrev pub backoff_at : ℕ → ℕ
backoff_at j = first_backoff * 2 ^ j

-- The pauses before the first `n` retries.
abbrev pub schedule : ℕ → List ℤ
schedule zero = []
schedule (suc n) = schedule n ++ pos (backoff_at n) ∷ []

backoff_at-suc : (j : ℕ) → backoff_at (suc j) ≡ backoff_at j * 2
backoff_at-suc j = rw pow-suc (omega arith)

backoff_at_mono : (j k : ℕ) → backoff_at j ≤ backoff_at (j + k)
backoff_at_mono j zero = let e : j + 0 ≡ j = omega arith in rw e (omega arith)
backoff_at_mono j (suc k) =
    let e : j + suc k ≡ suc (j + k) = omega arith in
    rw e (omega (arith, backoff_at-suc (j + k), backoff_at_mono j k))

backoff_at-le : (j k : ℕ) → j ≤ k → backoff_at j ≤ backoff_at k
backoff_at-le j k h = let e : j + (k - j) ≡ k = omega arith in rw e at (backoff_at_mono j (k - j))

-- Up to the 36th pause the number is positive as an int64, and doubling it does not wrap.
pause_fits : (j : ℕ) → j ≤ 35 → to_i64 (backoff_at j) ≡ pos (backoff_at j)
pause_fits j h = rw (lt→ltb (backoff_at j) (2 ^ 63) (omega (arith, backoff_at-le j 35 h)))

double_fits : (j : ℕ) → j ≤ 35 → double (backoff_at j) ≡ backoff_at (suc j)
double_fits j h = rw backoff_at-suc (omega (arith, backoff_at-le j 35 h))

-- The pauses are the first few of the schedule.
abbrev pub Scheduled : ℕ → Trace → Type 0
Scheduled n t = (m : ℕ) × (m ≤ n) × (t.pauses ≡ schedule m)

suc-ne-zero : (j : ℕ) → (suc j == 0) ≡ false
suc-ne-zero j = ground arith

paused-later :
    (trace : Trace) (i j backoff : ℕ)
    → i ≡ suc j
    → j ≤ 35
    → trace.pauses ≡ schedule j
    → backoff ≡ backoff_at j
    → (paused trace i backoff).pauses ≡ schedule (suc j)
paused-later trace i j backoff e h p b =
    rw (e, b, suc-ne-zero j, pause_fits j h) (ap (λ t. t ++ pos (backoff_at j) ∷ []) p)

backoff-later :
    (i j backoff : ℕ)
    → i ≡ suc j
    → j ≤ 35
    → backoff ≡ backoff_at j
    → backoff_after i backoff ≡ backoff_at (suc j)
backoff-later i j backoff e h b = rw (e, b, suc-ne-zero j) (double_fits j h)

-- The loop from a retry on.
attempts-Scheduled :
    (c : Client) (env : Surroundings) (body : Bytes) (rounds i j backoff : ℕ)
    (last_err : Option RequestError) (trace : Trace)
    → i ≡ suc j
    → i + rounds ≤ 37
    → trace.pauses ≡ schedule j
    → backoff ≡ backoff_at j
    → Scheduled (j + rounds) (attempts c env body rounds i backoff last_err trace).1
attempts-Scheduled c env body zero i j backoff last_err trace e h p b =
    unfold attempts in (j, omega arith, p)
attempts-Scheduled c env body (suc rounds) i j backoff last_err trace e h p b =
    let low : j ≤ 35 = omega arith in
    let done = paused-later trace i j backoff e low p b in
    elim (Bool-cases (stops env i)) [
      | inl stop ↦
          rw (attempts-stop c env body rounds i backoff last_err trace stop)
            (suc j, omega arith, done)
      | inr go ↦ elim (do_request-Ends (env.reply i)) [
        | inl (v, a, w) ↦
            rw (attempts-win c env body rounds i backoff last_err trace v go w)
              (suc j, omega arith, done)
        | inr (x, f, l) ↦
            let t = requested c env body rounds i backoff last_err trace in
            let (m, bound, q) =
              attempts-Scheduled c env body rounds (i + 1) (suc j) (backoff_after i backoff)
                (some x) t (omega arith) (omega arith) done (backoff-later i j backoff e low b) in
            rw (attempts-lose c env body rounds i backoff last_err trace x go l) (m, omega arith, q)
      ]
    ]

-- The loop from the first attempt on: no pause stands before that.
attempts-Scheduled_first :
    (c : Client) (env : Surroundings) (body : Bytes) (rounds : ℕ) (trace : Trace)
    → suc rounds ≤ 37
    → trace.pauses ≡ []
    → Scheduled rounds (attempts c env body (suc rounds) 0 first_backoff none trace).1
attempts-Scheduled_first c env body rounds trace h p = elim (do_request-Ends (env.reply 0)) [
  | inl (v, a, w) ↦
      rw (attempts-win c env body rounds 0 first_backoff none trace v refl w) (0, omega arith, p)
  | inr (x, f, l) ↦
      let t = requested c env body rounds 0 first_backoff none trace in
      let (m, bound, q) =
        attempts-Scheduled c env body rounds (0 + 1) 0 first_backoff (some x) t refl (omega arith) p
          refl in
      rw (attempts-lose c env body rounds 0 first_backoff none trace x refl l) (m, omega arith, q)
]

-- With at most 36 retries, and for all surroundings, `Evaluate` makes at most as many pauses as it
-- has retries, and they are 200 ms, 400 ms, 800 ms and so on, each twice the one before: nothing
-- wraps around.
pub evaluate-Scheduled :
    (c : Client) (env : Surroundings) (body : Bytes) (retries : ℕ)
    → c.max_retries ≡ pos retries
    → retries ≤ 36
    → Scheduled retries (evaluate c env (some body)).1
unfolding evaluate
evaluate-Scheduled c env body retries e h =
    let r : rounds_of c.max_retries ≡ suc retries = ap rounds_of e in
    rw r (
      attempts-Scheduled_first c env body retries (record { pauses = []; requests = [] })
        (omega arith) refl)

-- The 37th pause is negative: the number has wrapped around.
pub pause_wraps : to_i64 (double (backoff_at 35)) ≡ ℤ.negsuc 4702848726509551615
pause_wraps = refl

-- A request to the service's URL with the marshalled event.
abbrev pub IsRequest : Client → Bytes → Request → Type 0
IsRequest c body r = r ≡ record { url = c.base_url ++ codes "/v1/evaluate"; content = body }

sent_request-IsRequest :
    (c : Client) (body : Bytes) (r : Reply)
    → All (IsRequest c body) (sent_request c body r) × (length (sent_request c body r) ≤ 1)
unfolding sent_request
sent_request-IsRequest c body not_built = (tt, omega arith)
sent_request-IsRequest c body no_response = ((refl, tt), omega arith)
sent_request-IsRequest c body (response status answer) = ((refl, tt), omega arith)

-- The requests of a loop, with those before it.
abbrev Sends : Client → Bytes → ℕ → Trace → Type 0
Sends c body n t = All (IsRequest c body) t.requests × (length t.requests ≤ n)

joined-Sends :
    (c : Client) (body : Bytes) (r : Reply) (n : ℕ) (rs : List Request)
    → All (IsRequest c body) rs × (length rs ≤ n)
    → All (IsRequest c body) (rs ++ sent_request c body r)
      × (length (rs ++ sent_request c body r) ≤ n + 1)
joined-Sends c body r n rs (all, few) =
    let (one, short) = sent_request-IsRequest c body r in
    (
      All-append (IsRequest c body) rs (sent_request c body r) all one,
      omega (arith, length-append rs (sent_request c body r)),
    )

requested-Sends :
    (c : Client) (env : Surroundings) (body : Bytes) (rounds i backoff n : ℕ)
    (last_err : Option RequestError) (trace : Trace)
    → Sends c body n trace
    → Sends c body (n + 1) (requested c env body rounds i backoff last_err trace)
requested-Sends c env body rounds i backoff n last_err trace s = elim (Bool-cases (i == 0)) [
  | inl h ↦ rw h (joined-Sends c body (env.reply i) n trace.requests s)
  | inr h ↦ rw h (joined-Sends c body (env.reply i) n trace.requests s)
]

paused-Sends :
    (c : Client) (body : Bytes) (i backoff n m : ℕ) (trace : Trace)
    → n ≤ m
    → Sends c body n trace
    → Sends c body m (paused trace i backoff)
paused-Sends c body i backoff n m trace h (all, few) = elim (Bool-cases (i == 0)) [
  | inl z ↦ rw z (all, omega arith)
  | inr z ↦ rw z (all, omega arith)
]

attempts-Sends :
    (c : Client) (env : Surroundings) (body : Bytes) (rounds i backoff n : ℕ)
    (last_err : Option RequestError) (trace : Trace)
    → Sends c body n trace
    → Sends c body (n + rounds) (attempts c env body rounds i backoff last_err trace).1
attempts-Sends c env body zero i backoff n last_err trace (all, few) =
    unfold attempts in (all, omega arith)
attempts-Sends c env body (suc rounds) i backoff n last_err trace s =
    let t = requested c env body rounds i backoff last_err trace in
    let more = requested-Sends c env body rounds i backoff n last_err trace s in
    elim (Bool-cases (stops env i)) [
      | inl stop ↦
          rw (attempts-stop c env body rounds i backoff last_err trace stop)
            (paused-Sends c body i backoff n (n + suc rounds) trace (omega arith) s)
      | inr go ↦ elim (do_request-Ends (env.reply i)) [
        | inl (v, a, w) ↦
            rw (attempts-win c env body rounds i backoff last_err trace v go w)
              (more.0, omega (arith, more.1))
        | inr (x, f, l) ↦
            let (all, few) =
              attempts-Sends c env body rounds (i + 1) (backoff_after i backoff) (n + 1) (some x) t
                more in
            rw (attempts-lose c env body rounds i backoff last_err trace x go l)
              (all, omega (arith, few))
      ]
    ]

-- For every client and all surroundings, `Evaluate` on a marshalled event sends at most
-- `maxRetries + 1` requests, none if that is negative, and each of them posts that event to the
-- service's URL.
pub evaluate-Sends :
    (c : Client) (env : Surroundings) (body : Bytes)
    → All (IsRequest c body) (evaluate c env (some body)).1.requests
      × (length (evaluate c env (some body)).1.requests ≤ rounds_of c.max_retries)
unfolding evaluate
evaluate-Sends c env body =
    let (all, few) =
      attempts-Sends c env body (rounds_of c.max_retries) 0 first_backoff 0 none
        (record { pauses = []; requests = [] }) (tt, omega arith) in
    (all, omega (arith, few))
