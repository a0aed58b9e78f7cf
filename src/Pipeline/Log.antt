-- ===== src/Pipeline/Log.antt =====
-- broker/internal/pipeline/appendlog.go: the append-only file behind the audit log and the overflow
-- queue. The operating system's answers are arguments.
pub mod Laws
use agentic_ebpf_patrol.Prelude.{
  ℕ, Bool, true, false, not, ◌&&◌, List, [], ◌∷◌, ◌++◌, map, Option, none, some, Bytes, codes,
  bytes_eq, Result, ok, err, if◌then◌else◌,
}
use agentic_ebpf_patrol.Text.Utf8.{json_string}
use agentic_ebpf_patrol.Events.{Event}

-- What an event reads as after JSON.
unfoldable pub json_event : Event → Event
unfolding json_string
json_event e = record e {
  comm = json_string e.comm;
  filename = json_string e.filename;
  args = map json_string e.args;
  command_line = json_string e.command_line;
}

-- A file's content: lines that decode to an event, and what a partial write leaves.
pub data Entry : Type 0 where
  line : Event → Entry
  torn : Entry

-- `live` is the file at `path` and `aside` the one at `path + ".replay"`, where they exist.
-- `writer_failed` is the error that a `bufio.Writer` keeps: once set, every later `Flush` returns it.
-- Between two operations nothing is buffered unless the writer has failed.
pub record AppendLog : Type 0 where
  pub path : Bytes
  pub live : Option (List Entry)
  pub aside : Option (List Entry)
  pub is_open : Bool
  pub writer_failed : Bool

pub data LogError : Type 0 where
  mkdir_failed open_failed write_failed close_failed rename_failed : LogError

-- What the system answers when a log is opened: `filepath.Dir(path)`, `MkdirAll`, `OpenFile`, and
-- the files that are there.
pub record Opening : Type 0 where
  pub dir : Bytes
  pub dir_made : Bool
  pub opened : Bool
  pub found : Option (List Entry)
  pub found_aside : Option (List Entry)

-- `O_CREATE`: an empty file where there is none.
abbrev pub created : Option (List Entry) → Option (List Entry)
created none = some []
created (some es) = some es

unfoldable pub new_append_log : Opening → Bytes → Result LogError AppendLog
new_append_log os file =
    if not (bytes_eq os.dir (codes ".")) && not os.dir_made
    then err mkdir_failed
    else if not os.opened
    then err open_failed
    else ok (record {
      path = file;
      live = created os.found;
      aside = os.found_aside;
      is_open = true;
      writer_failed = false;
    })

-- What one write to the file does: all bytes, none, or some.
pub data Write : Type 0 where
  whole nothing partial : Write

abbrev pub put : Option (List Entry) → Entry → Option (List Entry)
put none x = none
put (some es) x = some (es ++ x ∷ [])

-- The content after the write of an event's line, and whether it failed.
abbrev pub written : Write → Event → Option (List Entry) → Option (List Entry)
written whole ev file = put file (line (json_event ev))
written nothing ev file = file
written partial ev file = put file torn

abbrev pub is_whole : Write → Bool
is_whole whole = true
is_whole nothing = false
is_whole partial = false

-- `Append`: the new log, and whether an error is returned. A write to a closed file fails.
unfoldable pub append : Write → Event → AppendLog → AppendLog × Bool
append w ev log =
    if log.writer_failed
    then (log, true)
    else if not log.is_open
    then (record log { writer_failed = true }, true)
    else (
      record log { live = written w ev log.live; writer_failed = not (is_whole w) },
      not (is_whole w),
    )

-- `Close`, given whether closing the file succeeds: the log, and whether an error is returned.
unfoldable pub close : Bool → AppendLog → AppendLog × Bool
close closes log =
    if log.writer_failed
    then (record log { is_open = false }, true)
    else (record log { is_open = false }, not (log.is_open && closes))

-- What the system answers in `rotate`: `Close`, `Rename` of a file that exists, `OpenFile`.
pub record Rotation : Type 0 where
  pub closes : Bool
  pub renames : Bool
  pub reopens : Bool

-- The end of `rotate`: a fresh file at the same path.
unfoldable pub reopen : Bool → Bytes → AppendLog → AppendLog × Result LogError Bytes
reopen reopens rotated log =
    if not reopens
    then (log, err open_failed)
    else (record log { live = created log.live; is_open = true; writer_failed = false }, ok rotated)

-- `rotate`: the log, and the path of the file that was moved aside, empty if there was none.
unfoldable pub rotate : Rotation → AppendLog → AppendLog × Result LogError Bytes
unfolding reopen
rotate os log =
    if log.writer_failed
    then (log, err write_failed)
    else if not (log.is_open && os.closes)
    then (record log { is_open = false }, err close_failed)
    else elim log.live [
      | some es ↦
          if not os.renames
          then (record log { is_open = false }, err rename_failed)
          else reopen os.reopens (log.path ++ codes ".replay")
              (record log { live = none; aside = some es; is_open = false })
      | none ↦ reopen os.reopens [] (record log { is_open = false })
    ]
