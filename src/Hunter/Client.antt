-- ===== src/Hunter/Client.antt =====
-- broker/internal/hunter/client.go: one request to the service, and `Evaluate`, which retries it.
pub mod Retry
pub mod Backoff
use agentic_ebpf_patrol.Prelude.{
  ℕ, zero, suc, ◌+◌, ◌*◌, ◌%◌, ◌^◌, ℤ, pos, to_i64, Bool, true, false, not, ◌&&◌, List, [], ◌∷◌,
  ◌++◌, Option, none, some, ◌⊎◌, inl, inr, Bytes, codes, ◌==◌, if◌then◌else◌,
}
use agentic_ebpf_patrol.Hunter.{Verdict}

-- `time.Duration` is an int64, in nanoseconds.
pub record Client : Type 0 where
  pub base_url : Bytes
  pub timeout : ℤ
  pub max_retries : ℤ

unfoldable pub new : Bytes → ℤ → ℤ → Client
new url limit retries = record { base_url = url; timeout = limit; max_retries = retries }

-- What the network makes of one request: it cannot be built, it gets no response, or it gets one
-- with a status and a body, which is a verdict or does not decode.
pub data Reply : Type 0 where
  not_built : Reply
  no_response : Reply
  response : ℕ → Option Verdict → Reply

pub data RequestError : Type 0 where
  build_request : RequestError
  request_failed : RequestError
  http_status : ℕ → RequestError
  decode_verdict : RequestError

abbrev pub status_ok : ℕ
status_ok = 200

-- `doRequest`: an error, or the verdict.
unfoldable pub do_request : Reply → RequestError ⊎ Verdict
do_request not_built = inl build_request
do_request no_response = inl request_failed
do_request (response status body) =
    if not (status == status_ok)
    then inl (http_status status)
    else elim body [ none ↦ inl decode_verdict | some v ↦ inr v ]

-- A request: its URL and its body.
pub record Request : Type 0 where
  pub url : Bytes
  pub content : Bytes

-- The request goes out unless it could not be built.
unfoldable pub sent_request : Client → Bytes → Reply → List Request
sent_request c body not_built = []
sent_request c body no_response =
    record { url = c.base_url ++ codes "/v1/evaluate"; content = body } ∷ []
sent_request c body (response status answer) =
    record { url = c.base_url ++ codes "/v1/evaluate"; content = body } ∷ []

-- What the `select` before a retry takes, when the context is cancelled or the time is over.
pub data Wake : Type 0 where
  ctx_done elapsed : Wake

-- The surroundings of the attempt with a given number: the pause before it, and the reply to it.
pub record Surroundings : Type 0 where
  pub wake : ℕ → Wake
  pub reply : ℕ → Reply

pub data Evaluation : Type 0 where
  verdict : Verdict → Evaluation
  marshal_failed : Evaluation
  cancelled : Evaluation
  -- The number of attempts, and the last error.
  unavailable : ℤ → Option RequestError → Evaluation

-- What a call did on the way: its pauses, in nanoseconds, and its requests, oldest first.
pub record Trace : Type 0 where
  pub pauses : List ℤ
  pub requests : List Request

abbrev pub is_done : Wake → Bool
is_done ctx_done = true
is_done elapsed = false

-- 200 ms, and `backoff *= 2` on the int64's bit pattern.
abbrev pub first_backoff : ℕ
first_backoff = 200_000_000

abbrev pub double : ℕ → ℕ
double backoff = (backoff * 2) % 2 ^ 64

-- `maxRetries + 1` attempts, none if that is not positive.
abbrev pub rounds_of : ℤ → ℕ
rounds_of (pos n) = suc n
rounds_of (ℤ.negsuc n) = 0

abbrev pub attempts_of : ℤ → ℤ
attempts_of (pos n) = pos (suc n)
attempts_of (ℤ.negsuc zero) = pos 0
attempts_of (ℤ.negsuc (suc n)) = ℤ.negsuc n

abbrev pub with_pause : Trace → ℤ → Trace
with_pause t d = record t { pauses = t.pauses ++ d ∷ [] }

abbrev pub with_requests : Trace → List Request → Trace
with_requests t rs = record t { requests = t.requests ++ rs }

-- The loop of `Evaluate`: rounds left, `attempt`, `backoff`, `lastErr`, and what was done so far.
unfoldable pub attempts :
    Client → Surroundings → Bytes → ℕ → ℕ → ℕ → Option RequestError → Trace → Evaluation × Trace
unfolding do_request sent_request
attempts c env body zero attempt backoff last_err trace =
    (unavailable (attempts_of c.max_retries) last_err, trace)
attempts c env body (suc rounds) attempt backoff last_err trace =
    let retry = not (attempt == 0) in
    let paused = if retry then with_pause trace (to_i64 backoff) else trace in
    let backoff' = if retry then double backoff else backoff in
    let trace' = with_requests paused (sent_request c body (env.reply attempt)) in
    let next =
      λ (e : RequestError). attempts c env body rounds (attempt + 1) backoff' (some e) trace' in
    let go : Evaluation × Trace = elim (do_request (env.reply attempt)) [
      | inr v ↦ (verdict v, trace')
      | inl e ↦ next e
    ] in
    if retry && is_done (env.wake attempt) then (cancelled, paused) else go

-- `Evaluate`, given what `json.Marshal` makes of the event.
unfoldable pub evaluate : Client → Surroundings → Option Bytes → Evaluation × Trace
unfolding attempts
evaluate c env none = (marshal_failed, record { pauses = []; requests = [] })
evaluate c env (some body) =
    attempts c env body (rounds_of c.max_retries) 0 first_backoff none
      (record { pauses = []; requests = [] })
