-- ===== src/Broker/Observability.antt =====
-- broker/main.go: `serveObservability`, by the path of a request.
pub mod Told
use agentic_ebpf_patrol.Prelude.{
  ℕ, ◌<◌, ◌^◌, ◌≡◌, ap, ◌∙◌, refl, List, [], ◌∷◌, ◌++◌, Option, some, Bytes, codes, length, All,
  bytes_eq, if◌then◌else◌, arith,
}
use agentic_ebpf_patrol.Pipeline.{Pipeline, metrics_handler}
use agentic_ebpf_patrol.Pipeline.Counters.{Metrics, metrics_report}
use agentic_ebpf_patrol.Pipeline.Counters.Encoding.{sort_keys, encode}
use agentic_ebpf_patrol.Pipeline.Counters.Reads.{read_object, read_object-encode, IsWide}

pub record Answer : Type 0 where
  pub status : ℕ
  pub content_type : Bytes
  pub body : Bytes

abbrev plain_text : Bytes
plain_text = codes "text/plain; charset=utf-8"

-- The handlers of the two paths, and `http.NotFound`, which the multiplexer calls for every other.
unfoldable pub serve : Bytes → Pipeline → Answer
unfolding metrics_handler encode
serve path p =
    if bytes_eq path (codes "/healthz")
    then record { status = 200; content_type = plain_text; body = codes "ok" }
    else if bytes_eq path (codes "/metrics")
    then record {
      status = 200;
      content_type = codes "application/json";
      body = encode (metrics_handler p);
    }
    else record {
      status = 404;
      content_type = plain_text;
      body = codes "404 page not found" ++ 10 ∷ [];
    }

-- The report, ordered by its keys.
abbrev pub ordered_report : Pipeline → List (Bytes × ℕ)
ordered_report p =
    (codes "actions_kill", p.metrics.actions_kill)
    ∷ (codes "decode_errors", p.metrics.decode_errors)
    ∷ (codes "events_lost", p.metrics.events_lost)
    ∷ (codes "events_total", p.metrics.events_total)
    ∷ (codes "hunter_errors", p.metrics.hunter_errors)
    ∷ (codes "overflow_replays", p.metrics.overflow_replays)
    ∷ (codes "queue_capacity", p.capacity)
    ∷ (codes "queue_depth", length p.queue)
    ∷ (codes "queue_overflows", p.metrics.queue_overflows)
    ∷ (codes "suspicious_total", p.metrics.suspicious_total)
    ∷ []

sort_keys-report : (p : Pipeline) → sort_keys (metrics_handler p) ≡ ordered_report p
unfolding sort_keys metrics_handler
sort_keys-report p = refl

metrics_body : (p : Pipeline) → (serve (codes "/metrics") p).body ≡ encode (metrics_handler p)
unfolding serve
metrics_body p = refl

-- A client of `/metrics` reads the counters, and the length and the capacity of the queue, each
-- under its key. All are 64-bit numbers, as their types say.
pub read_object-serve :
    (p : Pipeline)
    → All IsWide (metrics_handler p)
    → read_object (serve (codes "/metrics") p).body ≡ some (ordered_report p)
unfolding metrics_handler
read_object-serve p h =
    rw (metrics_body p)
      (read_object-encode (metrics_handler p) (rw (sort_keys-report p) (λ e. cc)) refl h)
    ∙ ap some (sort_keys-report p)
