-- ===== src/Pipeline/Log/Laws.antt =====
-- broker/internal/pipeline/appendlog.go: a log behind a failed write, and behind a failed reopening.
use agentic_ebpf_patrol.Prelude.{
  ◌≡◌, refl, true, false, List, [], ◌∷◌, err, arith, ◌≢◌, inl, inr, Bool-cases, Option, none, some,
}
use agentic_ebpf_patrol.Events.{Event}
use agentic_ebpf_patrol.Pipeline.Log.{
  AppendLog, LogError, close_failed, Entry, Write, whole, nothing, partial, append, Rotation,
  rotate, reopen, write_failed,
}

-- The calls of a log's life.
pub data Use : Type 0 where
  add_event : Write → Event → Use
  rotate_file : Rotation → Use

unfoldable pub use_log : Use → AppendLog → AppendLog
unfolding append rotate
use_log (add_event w ev) log = (append w ev log).0
use_log (rotate_file os) log = (rotate os log).0

unfoldable pub use_all : List Use → AppendLog → AppendLog
unfolding use_log
use_all [] log = log
use_all (u ∷ us) log = use_all us (use_log u log)

use_log-failed : (u : Use) (log : AppendLog) → log.writer_failed ≡ true → use_log u log ≡ log
unfolding use_log
use_log-failed (add_event w ev) log f = rw f
use_log-failed (rotate_file os) log f = rw f

use_all-failed : (us : List Use) (log : AppendLog) → log.writer_failed ≡ true → use_all us log ≡ log
unfolding use_all
use_all-failed [] log f = refl
use_all-failed (u ∷ us) log f = let e = use_log-failed u log f in rw e (use_all-failed us log f)

append-failed :
    (w : Write) (ev : Event) (log : AppendLog)
    → w ≢ whole
    → (append w ev log).0.writer_failed ≡ true
unfolding append
append-failed whole ev log n = absurd (n refl)
append-failed nothing ev log n = ground arith
append-failed partial ev log n = ground arith

-- After one write that does not succeed whole, and any number of further calls, every `Append`
-- returns an error and every `rotate` does, whatever the system answers, and the log is as the failed
-- write left it: nothing is added to the file and it is never moved aside.
pub failed_write_is_final :
    (w : Write) (ev : Event) (log : AppendLog) (us : List Use) (v : Write) (ev' : Event)
    (os : Rotation)
    → w ≢ whole
    → let failed = (append w ev log).0 in
      let later = use_all us failed in
      (later ≡ failed) × ((append v ev' later).1 ≡ true) × ((rotate os later).1 ≡ err write_failed)
failed_write_is_final w ev log us v ev' os n =
    let failed = (append w ev log).0 in
    let f = append-failed w ev log n in
    let same = use_all-failed us failed f in
    (same, rw same (unfold append in rw f), rw same (unfold rotate in rw f))

-- A log whose file is closed, with these two files.
abbrev IsShut : Option (List Entry) → Option (List Entry) → AppendLog → Type 0
IsShut live aside log = (log.is_open ≡ false) × (log.live ≡ live) × (log.aside ≡ aside)

use_log-IsShut :
    (u : Use) (live aside : Option (List Entry)) (log : AppendLog)
    → IsShut live aside log
    → IsShut live aside (use_log u log)
unfolding use_log append rotate
use_log-IsShut (add_event w ev) live aside log (o, l, a) = ground arith
use_log-IsShut (rotate_file os) live aside log (o, l, a) = ground arith

use_all-IsShut :
    (us : List Use) (live aside : Option (List Entry)) (log : AppendLog)
    → IsShut live aside log
    → IsShut live aside (use_all us log)
unfolding use_all
use_all-IsShut [] live aside log s = s
use_all-IsShut (u ∷ us) live aside log s =
    use_all-IsShut us live aside (use_log u log) (use_log-IsShut u live aside log s)

shut-append :
    (w : Write) (ev : Event) (log : AppendLog) → log.is_open ≡ false → (append w ev log).1 ≡ true
unfolding append
shut-append w ev log o = ground arith

shut-rotate :
    (os : Rotation) (log : AppendLog)
    → log.is_open ≡ false
    → (e : LogError) × ((rotate os log).1 ≡ err e)
unfolding rotate
shut-rotate os log o = elim (Bool-cases log.writer_failed) [
  | inl f ↦ (write_failed, ground arith)
  | inr f ↦ (close_failed, ground arith)
]

-- If `rotate` moves the file aside and then cannot open a fresh one, then from there on, whatever is
-- called and whatever the system answers, the path has no file, the moved file stays where it is, and
-- every `Append` and every `rotate` returns an error.
pub failed_reopen_is_final :
    (os : Rotation) (log : AppendLog) (es : List Entry) (us : List Use) (w : Write) (ev : Event)
    (os' : Rotation)
    → log.writer_failed ≡ false
    → log.is_open ≡ true
    → log.live ≡ some es
    → os.closes ≡ true
    → os.renames ≡ true
    → os.reopens ≡ false
    → let later = use_all us (rotate os log).0 in
      (later.live ≡ none)
      × (later.aside ≡ some es)
      × ((append w ev later).1 ≡ true)
      × ((e : LogError) × ((rotate os' later).1 ≡ err e))
failed_reopen_is_final os log es us w ev os' f o l c m r =
    let first : IsShut none (some es) (rotate os log).0 =
      unfold rotate reopen in (ground arith, ground arith, ground arith) in
    let (shut, live, aside) = use_all-IsShut us none (some es) (rotate os log).0 first in
    (live, aside, shut-append w ev _ shut, shut-rotate os' _ shut)
