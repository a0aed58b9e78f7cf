-- ===== src/Sensor/Capture/Consequences.antt =====
-- sensor/cyber-patrol-ebpf/src/main.rs together with the broker: an `execve` from its capture to the
-- verdict's response.
use agentic_ebpf_patrol.Prelude.{
  ℕ, zero, suc, ◌≤◌, ◌≡◌, ◌≢◌, refl, sym, ap, ◌∙◌, inl, inr, true, false, [], ◌∷◌, ◌++◌, some,
  Bytes, ok, ℤ, length, length-take, take, drop, arith,
}
use agentic_ebpf_patrol.Text.Trim.{PrintableEnds, trim_space_newline}
use agentic_ebpf_patrol.Events.{Event, decode}
use agentic_ebpf_patrol.Triage.{is_suspicious}
use agentic_ebpf_patrol.Triage.Names.{BaseOf, Agree}
use agentic_ebpf_patrol.Triage.Spec.{masquerade, is_suspicious_iff}
use agentic_ebpf_patrol.Hunter.Respond.{Host, kill_process}
use agentic_ebpf_patrol.Hunter.Respond.Safety.{IsTarget, kill_process-safe}
use agentic_ebpf_patrol.Sensor.{record_bytes}
use agentic_ebpf_patrol.Sensor.Capture.{
  Kernel, captured_argv, captured_filename, text_or_none, captured,
}
use agentic_ebpf_patrol.Sensor.Capture.Documented.{IsDocumented, seen}
use agentic_ebpf_patrol.Sensor.Capture.Seen.{decode-seen}

-- A path of 256 bytes or more, of which the helper reads the first 255, is decoded to an event with
-- these 255 bytes as its file name, which is not the path, and with `Truncated` false, if every
-- argument could be read.
pub decode-captured_cut :
    (boot_wall : ℤ) (k : Kernel) (path : Bytes) (p : ℕ)
    → IsDocumented k
    → 256 ≤ length path
    → k.filename_ptr ≡ some p
    → k.read_user_str p 256 ≡ some (take 255 path)
    → (captured_argv k).unreadable ≡ false
    → (e : Event) × (decode boot_wall (record_bytes (captured k)) ≡ ok e)
      × (e.filename ≡ take 255 path)
      × (e.filename ≢ path)
      × (e.truncated ≡ false)
decode-captured_cut boot_wall k path p d long at read whole_argv =
    let name : captured_filename k ≡ some (take 255 path) =
      unfold captured_filename in rw (at, read) in
    let is : text_or_none (captured_filename k) ≡ take 255 path = ap text_or_none name in
    (
      seen boot_wall k,
      decode-seen boot_wall k d,
      is,
      λ same. absurd (omega (arith, ap length (sym is ∙ same), length-take 255 path)),
      rw (name, whole_argv),
    )

take-drop : (n : ℕ) (b : Bytes) → take n b ++ drop n b ≡ b
take-drop zero b = refl
take-drop (suc n) [] = refl
take-drop (suc n) (c ∷ b) = ap (λ t. c ∷ t) (take-drop n b)

-- The sensor records the name of the process before `execve` replaces it. If neither this name nor the
-- base name of the new program begins with the other, then the event is suspicious; and if the process
-- bears, after the call, the first 15 bytes of that base name, with printable ends, then
-- `KillProcess` on the event never signals it.
pub renaming_exec-spared :
    (boot_wall : ℤ) (k : Kernel) (host : Host) (base : Bytes)
    → IsDocumented k
    → BaseOf (seen boot_wall k).filename base
    → base ≢ []
    → (seen boot_wall k).comm ≢ []
    → ¬ Agree base (seen boot_wall k).comm
    → PrintableEnds (take 15 base)
    → host.read_comm (seen boot_wall k).pid ≡ some (take 15 base ++ 10 ∷ [])
    → (e : Event) × (decode boot_wall (record_bytes (captured k)) ≡ ok e)
      × (is_suspicious e ≡ true)
      × ((kill_process host e.pid e.comm).signalled ≡ [])
renaming_exec-spared boot_wall k host base d b some_base some_comm differ ends reads =
    let e = seen boot_wall k in
    let flagged = (is_suspicious_iff e base b).1 (masquerade (some_base, some_comm, differ)) in
    let untargeted = λ (t : IsTarget host e.pid e.comm).
      let (bytes, _, read, trimmed) = t in
      let same : bytes ≡ take 15 base ++ 10 ∷ [] = cc in
      let name : take 15 base ≡ e.comm =
        sym (trim_space_newline (take 15 base) ends) ∙ rw (← same) trimmed in
      differ (inl (drop 15 base, sym (take-drop 15 base) ∙ ap (λ t. t ++ drop 15 base) name)) in
    (
      e,
      decode-seen boot_wall k d,
      flagged,
      elim (kill_process-safe host e.pid e.comm) [
        | inl (target, sent) ↦ absurd (untargeted target)
        | inr (_, spared, _) ↦ spared
      ],
    )
