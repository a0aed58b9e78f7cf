-- ===== src/Tests.antt =====
-- Data that the examples share: one record of the ring buffer, a pipeline with a queue of one, and
-- surroundings that answer or fail.
mod Decoding
mod Hunting
mod Flow
mod Running
mod Leaving
mod Sensing
mod Files
mod Starting
mod Serving
use mathlib.Core.Bool.{false≢true}
use agentic_ebpf_patrol.Prelude.{
  ℕ, zero, suc, ◌+◌, ◌<◌, ◌≡◌, refl, ℤ, pos, Bool, true, false, ◌&&◌, List, [], ◌∷◌, ◌++◌, Option,
  none, some, Bytes, codes, replicate, All, ltb, bytes_eq, arith, ◌==◌,
}
use agentic_ebpf_patrol.Events.{Event}
use agentic_ebpf_patrol.Events.Bounds.{IsByte}
use agentic_ebpf_patrol.Hunter.{Verdict, severity_high, action_kill}
use agentic_ebpf_patrol.Hunter.Client.{
  Client, Reply, response, no_response, Wake, elapsed, Surroundings,
}
use agentic_ebpf_patrol.Hunter.Respond.{Host}
use agentic_ebpf_patrol.Pipeline.Log.{AppendLog, json_event, Entry, Opening, Write, whole, Rotation}
use agentic_ebpf_patrol.Pipeline.Counters.{zero_metrics}
use agentic_ebpf_patrol.Pipeline.{Config, Pipeline, Call, new, NewResult}
use agentic_ebpf_patrol.Pipeline.Draining.{Drain}

-- A record for `/tmp/x` with the name `sh` and the pid 42.
abbrev pub raw_record : Bytes
raw_record =
    replicate 8 0
    ++ (42 ∷ 0 ∷ 0 ∷ 0 ∷ [])
    ++ (42 ∷ 0 ∷ 0 ∷ 0 ∷ [])
    ++ replicate 8 0
    ++ codes "sh"
    ++ replicate 14 0
    ++ codes "/tmp/x"
    ++ replicate 250 0
    ++ (6 ∷ 0 ∷ [])
    ++ codes "/tmp/x"
    ++ replicate 186 0
    ++ (6 ∷ 0 ∷ [])
    ++ replicate 10 0
    ++ (1 ∷ 0 ∷ [])

abbrev all_bytes : Bytes → Bool
all_bytes [] = true
all_bytes (b ∷ bs) = ltb b 256 && all_bytes bs

bytes-IsByte : (bs : Bytes) → all_bytes bs ≡ true → All IsByte bs
bytes-IsByte [] h = tt
bytes-IsByte (b ∷ bs) h = (ground arith, bytes-IsByte bs (ground arith))

pub raw_record-IsByte : All IsByte raw_record
raw_record-IsByte = bytes-IsByte raw_record refl

-- The event of `/tmp/x`.
abbrev pub dropped : Event
dropped = record {
  timestamp = pos 0;
  pid = 42;
  tid = 42;
  uid = 0;
  gid = 0;
  comm = codes "sh";
  filename = codes "/tmp/x";
  args = codes "/tmp/x" ∷ [];
  argc = 1;
  truncated = false;
  command_line = codes "/tmp/x /tmp/x";
}

abbrev pub kill_verdict : Verdict
kill_verdict = record {
  severity = severity_high;
  action = action_kill;
  mitre_technique = codes "T1059";
  mitre_tactic = codes "Execution";
  confidence = 0;
  rationale = [];
}

abbrev pub client : Client
client = record {
  base_url = codes "http://localhost:8000";
  timeout = pos 5_000_000_000;
  max_retries = pos 1;
}

-- The first attempt gets no response, the second a verdict.
abbrev pub second_answers : ℕ → Reply
second_answers zero = no_response
second_answers (suc i) = response 200 (some kill_verdict)

abbrev pub answering : Surroundings
answering = record { wake = λ i. elapsed; reply = second_answers }

abbrev pub down : Surroundings
down = record { wake = λ i. elapsed; reply = λ i. no_response }

abbrev pub answered_call : Call
answered_call = record { body = some (codes "{}"); around = answering; write = whole }

abbrev pub failed_call : Call
failed_call = record { body = some (codes "{}"); around = down; write = whole }

-- Every process is a shell.
abbrev pub host : Host
host = record { read_comm = λ pid. some (codes "sh" ++ 10 ∷ []); deliver = λ pid. true }

abbrev pub config : Config
config = record {
  hunter_client = client;
  queue_size = pos 1;
  workers = pos 1;
  overflow_path = codes "/var/o";
  audit_path = codes "/var/a";
  replay_every = pos 30_000_000_000;
}

abbrev pub opening : Opening
opening = record {
  dir = codes "/var";
  dir_made = true;
  opened = true;
  found = none;
  found_aside = none;
}

abbrev pub empty_log : Bytes → AppendLog
empty_log path = record {
  path = path;
  live = some [];
  aside = none;
  is_open = true;
  writer_failed = false;
}

abbrev pub pipeline : Pipeline
pipeline = record {
  cfg = config;
  queue = [];
  capacity = 1;
  metrics = zero_metrics;
  audit = empty_log (codes "/var/a");
  overflow = empty_log (codes "/var/o");
}

pub pipeline-new : new opening opening true config ≡ NewResult.created pipeline
unfolding new
pipeline-new = refl

abbrev pub smooth : Drain
smooth = record {
  rotation = record { closes = true; renames = true; reopens = true };
  opened = true;
  removed = true;
}

-- The events of one process.
abbrev pub of_process : Event → Bool
of_process e = e.pid == 42

pub process_kept : (e : Event) → of_process (json_event e) ≡ of_process e
unfolding json_event
process_kept e = refl
