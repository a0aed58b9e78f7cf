-- ===== src/Broker/Main/Reads.antt =====
-- The loop of `Run` inside `main` as moves of the pipeline's goroutines.
use mathlib.Core.Path.{subst}
use agentic_ebpf_patrol.Prelude.{
  ℕ, ◌+◌, ◌<◌, ◌≡◌, refl, sym, ap, ◌∙◌, List, [], ◌∷◌, ◌++◌, Bytes, Option, none, some, ◌⊎◌, inl,
  inr, arith,
}
use agentic_ebpf_patrol.Ingest
use agentic_ebpf_patrol.Ingest.{OpenError, Read}
use agentic_ebpf_patrol.Ingest.Order.{delivered, is_stopped, handle_all, run-delivered}
use agentic_ebpf_patrol.Pipeline.{Pipeline, NewResult, new}
use agentic_ebpf_patrol.Pipeline.System.{World, Move, receive, step, start, run}
use agentic_ebpf_patrol.Broker.{rounds, open_with_retry}
use agentic_ebpf_patrol.Broker.Startup.{Opens, FailsFor, both_open, open_with_retry-StartsUp}
use agentic_ebpf_patrol.Broker.Main.{
  Setting, no_map, nil_reader, handle, stage_of, read_all, started, main,
}

-- The moves of a run, from its records: the goroutines before the first, and for each the move of the
-- reader and what follows.
abbrev pub moves_from : Setting → ℕ → List Bytes → List Move
moves_from s i [] = []
moves_from s i (raw ∷ raws) =
    let r = s.round i in
    receive s.boot_wall r.audit_write r.overflow_write raw ∷ (r.others ++ moves_from s (i + 1) raws)

abbrev pub moves_of : Setting → List Bytes → List Move
moves_of s raws = s.before ++ moves_from s 0 raws

pub run-append : (ms ns : List Move) (w : World) → run (ms ++ ns) w ≡ run ns (run ms w)
unfolding run
run-append [] ns w = refl
run-append (m ∷ ms) ns w = run-append ms ns (step m w)

handle_all-moves :
    (s : Setting) (raws : List Bytes) (w : World) (i : ℕ)
    → (handle_all (handle s) raws (w, i)).0 ≡ run (moves_from s i raws) w
unfolding handle run step
handle_all-moves s [] w i = refl
handle_all-moves s (raw ∷ raws) w i =
    let r = s.round i in
    let w' = step (receive s.boot_wall r.audit_write r.overflow_write raw) w in
    handle_all-moves s raws (run r.others w') (i + 1)
    ∙ sym (run-append r.others (moves_from s (i + 1) raws) w')

-- `read_all` with a reader.
pub read_all-moves :
    (s : Setting) (reads : List Read) (r : Ingest.Reader) (w : World)
    → read_all s reads none (some r) w
      ≡ stage_of (is_stopped reads) (run (moves_from s 0 (delivered reads)) w)
unfolding read_all
read_all-moves s reads r w =
    rw (run-delivered (handle s) reads (w, 0))
      (ap (stage_of (is_stopped reads)) (handle_all-moves s (delivered reads) w 0))

-- The three ways of `main` from a pipeline that `New` returned.
abbrev pub Goes : Setting → List Read → Pipeline → Type 0
Goes s reads q =
    ((k : ℕ) × (k < rounds s.open_retries)
      × FailsFor s.tries 0 k
      × Opens (s.tries k)
      × (main s reads ≡ stage_of (is_stopped reads) (run (moves_of s (delivered reads)) (start q))))
    ⊎ ((0 < rounds s.open_retries)
        × FailsFor s.tries 0 (rounds s.open_retries)
        × ((e : OpenError) × (main s reads ≡ no_map e (run s.before (start q)))))
    ⊎ ((rounds s.open_retries ≡ 0) × (main s reads ≡ nil_reader (run s.before (start q))))

-- `main`, by what `openWithRetry` returns.
main-opened :
    (s : Setting) (reads : List Read) (q : Pipeline) (e : Option OpenError)
    (r : Option Ingest.Reader)
    → new s.audit_os s.overflow_os s.closes s.config ≡ NewResult.created q
    → (open_with_retry s.tries s.open_retries).error ≡ e
    → (open_with_retry s.tries s.open_retries).reader ≡ r
    → main s reads ≡ read_all s reads e r (run s.before (start q))
unfolding main
main-opened s reads q e r made is_e is_r = rw made (unfold started in rw (is_e, is_r))

-- From a pipeline that `New` returned, `main` does one of three things, whatever the system does. If
-- one of the allowed attempts opens the map, then `main` is where the moves of the goroutines lead,
-- in which the reader hands over exactly the records before the first error that finds the context
-- cancelled, once and in order; it is at `pl.Close()` if there was such an error, and inside `Run` if
-- not. If every attempt fails, it ends with an error, with no record handed over. If no attempt is
-- allowed, it goes on with a nil reader and panics.
pub main-Goes :
    (s : Setting) (reads : List Read) (q : Pipeline)
    → new s.audit_os s.overflow_os s.closes s.config ≡ NewResult.created q
    → Goes s reads q
main-Goes s reads q made =
    let o = open_with_retry s.tries s.open_retries in
    let w = run s.before (start q) in
    elim (open_with_retry-StartsUp s.tries s.open_retries) [
      | inl (k, under, before, opens, is) ↦ inl (
        k,
        under,
        before,
        (let at : 0 + k ≡ k = omega arith in subst (λ n. Opens (s.tries n)) at opens),
        main-opened s reads q none (some both_open) made (ap (λ x. x.error) is)
              (ap (λ x. x.reader) is)
            ∙ read_all-moves s reads both_open w
            ∙ ap (stage_of (is_stopped reads))
                (sym (run-append s.before (moves_from s 0 (delivered reads)) (start q))),
      )
      | inr (failed, no_reader, _, inl (no_round, no_error)) ↦ inr (
          inr (
            no_round,
            main-opened s reads q none none made no_error no_reader ∙ unfold read_all in refl,
          ))
      | inr (failed, no_reader, _, inr (some_round, (e, is))) ↦ inr (
          inl (
            some_round,
            failed,
            (e, main-opened s reads q (some e) none made is no_reader ∙ unfold read_all in refl),
          ))
    ]
