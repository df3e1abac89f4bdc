-- ===== src/Firmware/Lines.antt =====
-- backend/api/modules/FirmwareUpdateRuntime.cpp: the chunks of the output of an installation, and its
-- lines.
use everest_ui.Base.{
  ℕ, Bool, true, false, ◌&&◌, ◌||◌, not, List, [], ◌∷◌, ◌++◌, Option, none, some, ◌≡◌, refl, sym,
  ◌∙◌, if_both, Option-cases, arith, is_empty, any, ◌==◌, Bool-cases, inl, inr,
}
use everest_ui.Base.Text.{
  Text, codes, trimmed, drop_while, drop_while_end, split, cons_first, starts_with,
}
use everest_ui.Qt.{Qt}
use everest_ui.Firmware.State.{Firmware}
use everest_ui.Api.Types.{ModuleResponse}
use everest_ui.Base.Int.{ℤ, to_int}
use everest_ui.Firmware.Install.{
  report, report_match, mark_line, Emitted, cut_lines, push, chop_return, ends_with,
  handle_stdout_line, handle_lines, flush_stdout_remainder,
}

-- The lines of `cut_lines` with what is left.
abbrev pub all_lines : List Text × Text → List Text
all_lines (ls, rest) = ls ++ (rest ∷ [])

cons_first-push :
    (c : ℕ) (cut : List Text × Text) → all_lines (push c cut) ≡ cons_first c (all_lines cut)
cons_first-push c ([], rest) = refl
cons_first-push c (l ∷ ls, rest) = refl

-- `cut_lines` splits at the ends of the lines.
pub cut_lines-split : (s : Text) → all_lines (cut_lines s) ≡ split b'\n' s
unfolding cut_lines split
cut_lines-split [] = refl
cut_lines-split (c ∷ cs) = elim (Bool-cases (c == b'\n')) [
  | inl sep ↦ rw (sep, sym (cut_lines-split cs)) refl
  | inr other ↦ rw (other, sym (cut_lines-split cs)) (cons_first-push c (cut_lines cs))
]

-- The lines of a first part, and then those of its rest with a second part.
abbrev pub onto : Text → List Text × Text → List Text × Text
onto b (ls, rest) = (ls ++ (cut_lines (rest ++ b)).0, (cut_lines (rest ++ b)).1)

push-onto :
    (c : ℕ) (b : Text) (cut : List Text × Text)
    → (c == b'\n') ≡ false
    → push c (onto b cut) ≡ onto b (push c cut)
unfolding cut_lines
push-onto c b ([], rest) other = rw other refl
push-onto c b (l ∷ ls, rest) other = refl

-- The lines do not depend on how the output is cut into chunks.
pub cut_lines-append : (a b : Text) → cut_lines (a ++ b) ≡ onto b (cut_lines a)
unfolding cut_lines
cut_lines-append [] b = refl
cut_lines-append (c ∷ cs) b = elim (Bool-cases (c == b'\n')) [
  | inl sep ↦ rw (sep, cut_lines-append cs b) refl
  | inr other ↦ rw (other, cut_lines-append cs b) (push-onto c b (cut_lines cs) other)
]

pub any-append : (p : Text → Bool) (ls ms : List Text) → any p (ls ++ ms) ≡ any p ls || any p ms
any-append p [] ms = refl
any-append p (l ∷ ls) ms = let e = any-append p ls ms in ground arith

-- None of the responses is a last one.
abbrev pub are_early : List ModuleResponse → Bool
are_early [] = true
are_early (r ∷ rs) = not r.final && are_early rs

pub are_early-append :
    (rs ts : List ModuleResponse) → are_early (rs ++ ts) ≡ are_early rs && are_early ts
are_early-append [] ts = refl
are_early-append (r ∷ rs) ts = let e = are_early-append rs ts in ground arith

module _ (q : Qt) where
  -- A line of the output says that the installation has succeeded.
  unfoldable pub says_success : Text → Bool
  says_success line = ends_with (codes "succeeded") (trimmed q.is_space (chop_return line))

  says_nothing : (t : Text) → is_empty t ≡ true → says_success t ≡ false
  unfolding says_success ends_with chop_return trimmed drop_while drop_while_end
  says_nothing [] h = refl
  says_nothing (c ∷ cs) h = absurd (ground arith)

-- The responses are early, the installation goes on under its request, and its mark of success is
-- set if `found`.
pub record IsProgress (s : Firmware) (found : Bool) (e : Emitted) : Type 0 where
  pub early : are_early e.responses ≡ true
  pub running : e.firmware.update_running ≡ s.update_running
  pub request : e.firmware.current_request_id ≡ s.current_request_id
  pub action : e.firmware.current_action ≡ s.current_action
  pub rest : e.firmware.stdout_line_buffer ≡ s.stdout_line_buffer
  pub seen : e.firmware.success_seen ≡ s.success_seen || found

empty_fails : (t : Text) → is_empty t ≡ true → ends_with (codes "succeeded") t ≡ false
unfolding ends_with
empty_fails [] h = refl
empty_fails (c ∷ cs) h = absurd (ground arith)

same : (s : Firmware) → IsProgress s false (record { firmware = s; responses = [] })
same s = record {
  early = refl;
  running = refl;
  request = refl;
  action = refl;
  rest = refl;
  seen = ground arith;
}

module _ (q : Qt) (match_progress : Text → Option (Text × Text)) where
  report-IsProgress :
      (progress : ℤ) (stage : Text) (s : Firmware) → IsProgress s false (report progress stage s)
  unfolding report
  report-IsProgress progress stage s =
      let k = same s in
      if_both (IsProgress s false)
        (not s.ack_sent
          && starts_with (codes "Checking slot ") stage
          && ends_with (codes " done.") stage)
        (λ _. record {
          early = refl;
          running = refl;
          request = refl;
          action = refl;
          rest = refl;
          seen = k.seen;
        })
        (λ _. record {
          early = refl;
          running = refl;
          request = refl;
          action = refl;
          rest = refl;
          seen = k.seen;
        })

  match-IsProgress :
      (o : Option (Text × Text)) (s : Firmware)
      → IsProgress s false (report_match q match_progress o s)
  unfolding report_match
  match-IsProgress none s = same s
  match-IsProgress (some (number, stage)) s = elim (Option-cases (to_int number)) [
    | inl e ↦ rw (e, report_match) (same s)
    | inr (n, e) ↦ rw (e, report_match) (report-IsProgress n (trimmed q.is_space stage) s)
  ]

  line-IsProgress :
      (line : Text) (s : Firmware)
      → s.update_running ≡ true
      → IsProgress s
          (ends_with (codes "succeeded") (trimmed q.is_space line))
          (handle_stdout_line q match_progress line s)
  unfolding handle_stdout_line mark_line
  line-IsProgress line s up =
      let m = match-IsProgress (match_progress line) s in
      if_both (IsProgress s (ends_with (codes "succeeded") (trimmed q.is_space line)))
        (not s.update_running || is_empty (trimmed q.is_space line))
        (λ skip.
          let none_found = empty_fails (trimmed q.is_space line) (ground arith) in
          record {
            early = refl;
            running = refl;
            request = refl;
            action = refl;
            rest = refl;
            seen = ground arith;
          })
        (λ _. record {
          early = m.early;
          running = m.running;
          request = m.request;
          action = m.action;
          rest = m.rest;
          seen = let w = m.seen in ground arith;
        })

  -- Two parts of the output, one behind the other.
  both-IsProgress :
      (a b : Bool) (s : Firmware) (d e : Emitted)
      → IsProgress s a d
      → IsProgress d.firmware b e
      → IsProgress s
          (a || b)
          (record { firmware = e.firmware; responses = d.responses ++ e.responses })
  both-IsProgress a b s d e g h =
      let all = are_early-append d.responses e.responses in
      let x = g.early in
      let y = h.early in
      let u = g.seen in
      let v = h.seen in
      record {
        early = ground arith;
        running = h.running ∙ g.running;
        request = h.request ∙ g.request;
        action = h.action ∙ g.action;
        rest = h.rest ∙ g.rest;
        seen = ground arith;
      }

  pub lines-IsProgress :
      (lines : List Text) (s : Firmware)
      → s.update_running ≡ true
      → IsProgress s (any (says_success q) lines) (handle_lines q match_progress lines s)
  unfolding handle_lines says_success
  lines-IsProgress [] s up = same s
  lines-IsProgress (line ∷ lines) s up =
      let first = line-IsProgress (chop_return line) s up in
      let e = handle_stdout_line q match_progress (chop_return line) s in
      both-IsProgress (says_success q line) (any (says_success q) lines) s e _ first
        (lines-IsProgress lines e.firmware (first.running ∙ up))

  -- The rest of the output, when the process has ended.
  pub flush-IsProgress :
      (s : Firmware)
      → s.update_running ≡ true
      → let e = flush_stdout_remainder q match_progress s in
        (are_early e.responses ≡ true)
        × (e.firmware.update_running ≡ true)
        × (e.firmware.current_request_id ≡ s.current_request_id)
        × (e.firmware.current_action ≡ s.current_action)
        × (e.firmware.success_seen ≡ s.success_seen || says_success q s.stdout_line_buffer)
  unfolding flush_stdout_remainder says_success
  flush-IsProgress s up =
      let l =
        line-IsProgress (chop_return s.stdout_line_buffer) (record s { stdout_line_buffer = [] })
          up in
      if_both P (is_empty s.stdout_line_buffer)
        (λ none_left. (
          refl,
          up,
          refl,
          refl,
          let silent = says_nothing q s.stdout_line_buffer none_left in ground arith,
        ))
        (λ _. (l.early, l.running ∙ up, l.request, l.action, l.seen))
    where
      P : Emitted → Type 0
      P e =
          (are_early e.responses ≡ true)
          × (e.firmware.update_running ≡ true)
          × (e.firmware.current_request_id ≡ s.current_request_id)
          × (e.firmware.current_action ≡ s.current_action)
          × (e.firmware.success_seen ≡ s.success_seen || says_success q s.stdout_line_buffer)
