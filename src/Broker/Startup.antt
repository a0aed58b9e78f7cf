-- ===== src/Broker/Startup.antt =====
-- What `openWithRetry` returns.
use agentic_ebpf_patrol.Prelude.{
  ℕ, zero, suc, ◌+◌, ◌<◌, ◌≡◌, refl, sym, ap, ◌∙◌, ◌⊎◌, inl, inr, ℤ, true, false, Option, none,
  some, Bool-cases, arith,
}
use mathlib.Core.Path.{subst}
use mathlib.Core.Bool.{false≢true}
use agentic_ebpf_patrol.Ingest.{Reader, OpenError, open_reader}
use agentic_ebpf_patrol.Broker.{Attempt, Opened, rounds, open_from, open_with_retry}

abbrev pub Opens : Attempt → Type 0
Opens t = (t.loads ≡ true) × (t.attaches ≡ true)

-- From the attempt `i` on, `k` attempts fail.
abbrev pub FailsFor : (ℕ → Attempt) → ℕ → ℕ → Type 0
FailsFor tries i zero = Unit {0}
FailsFor tries i (suc k) = (¬ Opens (tries i)) × FailsFor tries (i + 1) k

abbrev pub both_open : Reader
both_open = record { map_open = true; ring_open = true }

-- The reader of the first attempt that succeeds, after a pause for each that failed; or no reader
-- after as many failures as there were rounds, with an error unless there was no round.
abbrev pub StartsUp : (ℕ → Attempt) → ℕ → ℕ → Option OpenError → ℕ → Opened → Type 0
StartsUp tries left i last_err made o =
    ((k : ℕ) × (k < left)
      × FailsFor tries i k
      × Opens (tries (i + k))
      × (o ≡ record { reader = some both_open; error = none; pauses = made + k }))
    ⊎ (FailsFor tries i left
        × (o.reader ≡ none)
        × (o.pauses ≡ made + left)
        × ((left ≡ 0) × (o.error ≡ last_err) ⊎ (0 < left) × ((e : OpenError) × (o.error ≡ some e))))

failed_first :
    (tries : ℕ → Attempt) (left i : ℕ) (last_err : Option OpenError) (x : OpenError) (made : ℕ)
    (o : Opened)
    → ¬ Opens (tries i)
    → StartsUp tries left (i + 1) (some x) (made + 1) o
    → StartsUp tries (suc left) i last_err made o
failed_first tries left i last_err x made o fails (inl (k, under, before, opens, is)) =
    let at : (i + 1) + k ≡ i + suc k = omega arith in
    let waits : (made + 1) + k ≡ made + suc k = omega arith in
    inl (
      suc k,
      omega arith,
      (fails, before),
      subst (λ n. Opens (tries n)) at opens,
      is ∙ ap (λ n. record { reader = some both_open; error = none; pauses = n }) waits,
    )
failed_first tries left i last_err x made o fails (inr (failed, nothing, paused, inl (_, is))) =
    inr ((fails, failed), nothing, paused ∙ omega arith, inr (omega arith, (x, is)))
failed_first tries left i last_err x made o fails (inr (failed, nothing, paused, inr (_, e))) =
    inr ((fails, failed), nothing, paused ∙ omega arith, inr (omega arith, e))

-- One round of the loop, by what its attempt meets.
module _ (tries : ℕ → Attempt) (left i : ℕ) (last_err : Option OpenError) (made : ℕ) where
  round_unloaded :
      (tries i).loads ≡ false
      → open_from tries (suc left) i last_err made
        ≡ open_from tries left (i + 1) (some OpenError.load_pinned_map) (made + 1)
  unfolding open_from open_reader
  round_unloaded l = ground arith

  round_unattached :
      (tries i).loads ≡ true
      → (tries i).attaches ≡ false
      → open_from tries (suc left) i last_err made
        ≡ open_from tries left (i + 1) (some OpenError.attach_reader) (made + 1)
  unfolding open_from open_reader
  round_unattached l a = ground arith

  opening_round :
      Opens (tries i)
      → open_from tries (suc left) i last_err made
        ≡ record { reader = some both_open; error = none; pauses = made }
  unfolding open_from open_reader
  opening_round (l, a) = ground arith

first_attempt_works :
    (tries : ℕ → Attempt) (left i : ℕ) (last_err : Option OpenError) (made : ℕ)
    → Opens (tries i)
    → StartsUp tries (suc left) i last_err made (open_from tries (suc left) i last_err made)
first_attempt_works tries left i last_err made opens =
    let at : i ≡ i + 0 = omega arith in
    let waits : made ≡ made + 0 = omega arith in
    inl (
      0,
      omega arith,
      tt,
      subst (λ n. Opens (tries n)) at opens,
      opening_round tries left i last_err made opens
          ∙ ap (λ n. record { reader = some both_open; error = none; pauses = n }) waits,
    )

open_from-StartsUp :
    (tries : ℕ → Attempt) (left i : ℕ) (last_err : Option OpenError) (made : ℕ)
    → StartsUp tries left i last_err made (open_from tries left i last_err made)
open_from-StartsUp tries zero i last_err made =
    unfold open_from in inr (tt, refl, omega arith, inl (refl, refl))
open_from-StartsUp tries (suc left) i last_err made =
    let failed : (x : OpenError)
        → open_from tries (suc left) i last_err made
          ≡ open_from tries left (i + 1) (some x) (made + 1)
        → ¬ Opens (tries i)
        → StartsUp tries (suc left) i last_err made (open_from tries (suc left) i last_err made) =
      λ x e n. subst (StartsUp tries (suc left) i last_err made) (sym e) (
        failed_first tries left i last_err x made (open_from tries left (i + 1) (some x) (made + 1))
          n (open_from-StartsUp tries left (i + 1) (some x) (made + 1))) in
    elim (Bool-cases (tries i).loads) [
      | inr unloaded ↦
          failed OpenError.load_pinned_map (round_unloaded tries left i last_err made unloaded)
            (λ (l, a). false≢true (sym unloaded ∙ l))
      | inl loaded ↦ elim (Bool-cases (tries i).attaches) [
        | inr unattached ↦
            failed OpenError.attach_reader
              (round_unattached tries left i last_err made loaded unattached)
              (λ (l, a). false≢true (sym unattached ∙ a))
        | inl attached ↦ first_attempt_works tries left i last_err made (loaded, attached)
      ]
    ]

-- For whatever the attempts meet, `openWithRetry` returns the reader of the first that succeeds, with
-- both handles open and a pause of 2 s for each attempt that failed before it. If all of them fail it
-- returns no reader, after a pause for each, and an error, unless `attempts` allows no attempt: then it
-- returns neither reader nor error.
pub open_with_retry-StartsUp :
    (tries : ℕ → Attempt) (attempts : ℤ)
    → StartsUp tries (rounds attempts) 0 none 0 (open_with_retry tries attempts)
open_with_retry-StartsUp tries attempts =
    unfold open_with_retry in open_from-StartsUp tries (rounds attempts) 0 none 0
