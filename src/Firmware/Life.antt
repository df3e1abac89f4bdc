-- ===== src/Firmware/Life.antt =====
-- backend/api/modules/FirmwareUpdateRuntime.cpp: theorems on the whole life of the object, and on a
-- finished upload and a reboot.
use everest_ui.Base.{
  true, false, ◌&&◌, ◌||◌, not, List, [], ◌∷◌, Option, none, some, ◌==◌, ◌≡◌, ◌⊎◌, refl, subst,
  if_both, Option-cases, inl, inr, arith, length, is_empty,
}
use everest_ui.Base.Text.{Text, codes, eqb, eqb_iff, trimmed, starts_with}
use everest_ui.Base.Int.{ℤ, to_int}
use everest_ui.Base.Json.{value, to_string}
use everest_ui.Qt.{Qt, QtLaws}
use everest_ui.Api.Types.{ModuleRequest}
use everest_ui.Login.State.{read_login_state, block_login_for_reboot}
use everest_ui.Login.Laws.{block_login_for_reboot-closed}
use everest_ui.Firmware.State.{
  Firmware, World, is_busy, image_object, reset_upload_state, abort_upload,
}
use everest_ui.Firmware.Upload.{
  Result, is_not_started, digest, finish_with, handle_upload_start, handle_upload_chunk,
  handle_upload_finish, handle_client_disconnected,
}
use everest_ui.Firmware.Install.{
  Emitted, has_finished_upload, handle_update, handle_reboot, report, report_match, mark_line,
  chop_return, handle_stdout_line, handle_lines, process_stdout_chunk, flush_stdout_remainder,
  settled, handle_streaming_finished, ends_with,
}
use everest_ui.Firmware.Runs.{
  Call, upload_start, upload_chunk, upload_finish, update, reboot, client_disconnected,
  stdout_received, call, Runs, begins, calls, finishes,
}
use everest_ui.Firmware.Complete.{
  IsCounted, reset-IsCounted, chunk_at-IsCounted, finish_with-IsCounted, start-IsCounted,
}

abbrev Q : Emitted → Type 0
Q e = IsCounted e.firmware

module _ (q : Qt) (match_progress : Text → Option (Text × Text)) where
  report-IsCounted :
      (progress : ℤ) (stage : Text) (s : Firmware) → IsCounted s → Q (report progress stage s)
  unfolding report
  report-IsCounted progress stage s h =
      if_both Q
        (not s.ack_sent
          && starts_with (codes "Checking slot ") stage
          && ends_with (codes " done.") stage)
        (λ _. record {
          exclusive = h.exclusive;
          present = h.present;
          stored = h.stored;
          announced = h.announced;
          chunks = h.chunks;
          sizes = h.sizes;
          finished = h.finished;
        })
        (λ _. h)

  match-IsCounted :
      (o : Option (Text × Text)) (s : Firmware)
      → IsCounted s
      → Q (report_match q match_progress o s)
  unfolding report_match
  match-IsCounted none s h = h
  match-IsCounted (some (number, stage)) s h = elim (Option-cases (to_int number)) [
    | inl e ↦ rw (e, report_match) h
    | inr (n, e) ↦ rw (e, report_match) (report-IsCounted n (trimmed q.is_space stage) s h)
  ]

  line-IsCounted :
      (line : Text) (s : Firmware) → IsCounted s → Q (handle_stdout_line q match_progress line s)
  unfolding handle_stdout_line mark_line
  line-IsCounted line s h =
      let m = match-IsCounted (match_progress line) s h in
      if_both Q (not s.update_running || is_empty (trimmed q.is_space line)) (λ _. h)
        (λ _. record {
          exclusive = m.exclusive;
          present = m.present;
          stored = m.stored;
          announced = m.announced;
          chunks = m.chunks;
          sizes = m.sizes;
          finished = m.finished;
        })

  lines-IsCounted :
      (lines : List Text) (s : Firmware) → IsCounted s → Q (handle_lines q match_progress lines s)
  unfolding handle_lines
  lines-IsCounted [] s h = h
  lines-IsCounted (line ∷ lines) s h =
      lines-IsCounted lines (handle_stdout_line q match_progress (chop_return line) s).firmware
        (line-IsCounted (chop_return line) s h)

  flush-IsCounted : (s : Firmware) → IsCounted s → Q (flush_stdout_remainder q match_progress s)
  unfolding flush_stdout_remainder
  flush-IsCounted s h =
      if_both Q (is_empty s.stdout_line_buffer) (λ _. h)
        (λ _.
          line-IsCounted (chop_return s.stdout_line_buffer) (record s { stdout_line_buffer = [] })
            (record {
              exclusive = h.exclusive;
              present = h.present;
              stored = h.stored;
              announced = h.announced;
              chunks = h.chunks;
              sizes = h.sizes;
              finished = h.finished;
            }))

  update-IsCounted :
      (w : World) (r : ModuleRequest) (s : Firmware)
      → IsCounted s
      → IsCounted (handle_update w r s).firmware
  unfolding handle_update
  update-IsCounted w r s h =
      if_both R s.update_running (λ _. h)
        (λ _.
          if_both R (not (has_finished_upload w s)) (λ _. h)
            (λ _.
              if_both R (not w.started) (λ _. h)
                (λ _. record {
                  exclusive = h.exclusive;
                  present = h.present;
                  stored = h.stored;
                  announced = h.announced;
                  chunks = h.chunks;
                  sizes = h.sizes;
                  finished = h.finished;
                })))
    where
      R : Result → Type 0
      R a = IsCounted a.firmware

  reboot-IsCounted :
      (w : World) (r : ModuleRequest) (s : Firmware)
      → IsCounted s
      → IsCounted (handle_reboot q w r s).firmware
  unfolding handle_reboot
  reboot-IsCounted w r s h =
      if_both R (is_busy s || not s.reboot_required) (λ _. h)
        (λ _.
          if_both R
            (not
              (block_login_for_reboot q w.path w.calls w.removed (codes "reboot") s.login).result)
            (λ _. kept) (λ _. again))
    where
      R : Result → Type 0
      R a = IsCounted a.firmware

      blocked : Firmware
      blocked =
          let b = block_login_for_reboot q w.path w.calls w.removed (codes "reboot") s.login in
          record s { login = b.file; exited = b.exits }

      kept : IsCounted blocked
      kept = record {
        exclusive = h.exclusive;
        present = h.present;
        stored = h.stored;
        announced = h.announced;
        chunks = h.chunks;
        sizes = h.sizes;
        finished = h.finished;
      }

      again : IsCounted (record blocked { reboot_required = false; reboot_pending = true })
      again = record {
        exclusive = h.exclusive;
        present = h.present;
        stored = h.stored;
        announced = h.announced;
        chunks = h.chunks;
        sizes = h.sizes;
        finished = h.finished;
      }

  chunk-IsCounted :
      (w : World) (r : ModuleRequest) (s : Firmware)
      → IsCounted s
      → IsCounted (handle_upload_chunk q w r s).firmware
  unfolding handle_upload_chunk
  chunk-IsCounted w r s h =
      if_both (λ (a : Result). IsCounted a.firmware) (is_not_started s) (λ _. h)
        (λ up. chunk_at-IsCounted w r _ _ s (ground arith) h)

  finish-IsCounted :
      (w : World) (r : ModuleRequest) (s : Firmware)
      → IsCounted s
      → IsCounted (handle_upload_finish q w r s).firmware
  unfolding handle_upload_finish
  finish-IsCounted w r s h =
      if_both (λ (a : Result). IsCounted a.firmware) (is_not_started s) (λ _. h)
        (λ up. finish_with-IsCounted w r _ s (ground arith) h)

  call-IsCounted : (c : Call) (s : Firmware) → IsCounted s → IsCounted (call q match_progress c s)
  unfolding call handle_upload_start handle_client_disconnected abort_upload process_stdout_chunk
  call-IsCounted (upload_start w r) s h =
      if_both (λ (a : Result). IsCounted a.firmware) s.upload_running (λ _. h)
        (λ _. start-IsCounted w r _ (reset_upload_state s) (reset-IsCounted s))
  call-IsCounted (upload_chunk w r) s h = chunk-IsCounted w r s h
  call-IsCounted (upload_finish w r) s h = finish-IsCounted w r s h
  call-IsCounted (update w r) s h = update-IsCounted w r s h
  call-IsCounted (reboot w r) s h = reboot-IsCounted w r s h
  call-IsCounted client_disconnected s h =
      if_both IsCounted (not s.upload_running) (λ _. h) (λ _. reset-IsCounted s)
  call-IsCounted (stdout_received chunk) s h = lines-IsCounted _ _ (record {
    exclusive = h.exclusive;
    present = h.present;
    stored = h.stored;
    announced = h.announced;
    chunks = h.chunks;
    sizes = h.sizes;
    finished = h.finished;
  })

  settled-IsCounted : (s : Firmware) → IsCounted (settled q match_progress s)
  unfolding reset_upload_state
  settled-IsCounted s = record {
    exclusive = refl;
    present = λ e. absurd (ground arith);
    stored = λ image e. absurd (ground arith);
    announced = omega arith;
    chunks = omega arith;
    sizes = omega arith;
    finished = λ e. absurd (ground arith);
  }

  -- In any life of the object, whatever the last response of an installation causes: the file of an
  -- upload has as many bytes as were counted, at most as many as were announced and as its chunks
  -- hold, in at most as many chunks as were announced; and a finished upload has all the bytes.
  pub Runs-IsCounted : (s : Firmware) → Runs q match_progress s → IsCounted s
  unfolding handle_streaming_finished
  Runs-IsCounted _ (begins login) = record {
    exclusive = refl;
    present = λ e. absurd (ground arith);
    stored = λ image e. absurd (ground arith);
    announced = omega arith;
    chunks = omega arith;
    sizes = omega arith;
    finished = λ e. absurd (ground arith);
  }
  Runs-IsCounted _ (calls c s run) = call-IsCounted c s (Runs-IsCounted s run)
  Runs-IsCounted _ (finishes exit_code reenter s run) =
      if_both Q (not (flush_stdout_remainder q match_progress s).firmware.update_running)
        (λ _. flush-IsCounted s (Runs-IsCounted s run)) (λ _. settled-IsCounted _)

-- What a finished upload guarantees.
pub record IsComplete (w : World) (expected : Text) (s t : Firmware) : Type 0 where
  pub image : Text
  pub kept : t.image ≡ some image
  pub size : length image ≡ s.expected_size
  pub count : s.next_chunk_index ≡ s.expected_chunk_count
  pub digest : w.sha256_hex image ≡ expected

abbrev pub requested_digest : Qt → ModuleRequest → Text
requested_digest q r =
    q.to_lower (trimmed q.is_space (to_string (value (codes "sha256") (image_object r))))

finish_with-IsComplete :
    (w : World) (r : ModuleRequest) (expected : Text) (s : Firmware)
    → IsCounted s
    → s.upload_running ≡ true
    → (finish_with w r expected s).response.success ≡ true
    → IsComplete w expected s (finish_with w r expected s).firmware
unfolding finish_with
finish_with-IsComplete w r expected s h up =
    if_both R (is_empty expected) (λ _ b. absurd (ground arith))
      (λ _.
        if_both R
          (not (s.next_chunk_index == s.expected_chunk_count)
            || not (s.written_size == s.expected_size))
          (λ _ b. absurd (ground arith))
          (λ full.
            if_both R (not w.flushed) (λ _ b. absurd (ground arith))
              (λ _.
                if_both R (not w.readable || not w.hashed) (λ _ b. absurd (ground arith))
                  (λ _.
                    if_both R (not (eqb (digest w s.image) expected)) (λ _ b. absurd (ground arith))
                      (λ same _. whole full same s.image refl)))))
  where
    R : Result → Type 0
    R a = a.response.success ≡ true → IsComplete w expected s a.firmware

    whole :
        (not (s.next_chunk_index == s.expected_chunk_count)
            || not (s.written_size == s.expected_size))
          ≡ false
        → not (eqb (digest w s.image) expected) ≡ false
        → (o : Option Text) → s.image ≡ o
        → IsComplete w expected s
            (record s { upload_open = false; upload_running = false; upload_finished = true })
    whole full same none e = absurd (let there = h.present (ground arith) in ground arith)
    whole full same (some image) e = record {
      image = image;
      kept = e;
      size = (let stored = h.stored image e in ground arith);
      count = ground arith;
      digest =
          subst (λ o. digest w o ≡ expected) e
            ((eqb_iff (digest w s.image) expected).0 (ground arith));
    }

-- If `upload_image.finish` succeeds, all the announced chunks have come, the file has exactly the
-- announced bytes, and its digest is the one of the request.
pub handle_upload_finish-IsComplete :
    (q : Qt) (match_progress : Text → Option (Text × Text)) (w : World) (r : ModuleRequest)
    (s : Firmware)
    → Runs q match_progress s
    → (handle_upload_finish q w r s).response.success ≡ true
    → IsComplete w (requested_digest q r) s (handle_upload_finish q w r s).firmware
unfolding handle_upload_finish
handle_upload_finish-IsComplete q match_progress w r s run =
    if_both R (is_not_started s) (λ _ b. absurd (ground arith))
      (λ up.
        finish_with-IsComplete w r (requested_digest q r) s (Runs-IsCounted q match_progress s run)
          (ground arith))
  where
    R : Result → Type 0
    R a = a.response.success ≡ true → IsComplete w (requested_digest q r) s a.firmware

-- A reboot is accepted only if one is required and neither an installation nor an upload nor another
-- reboot is under way; and then the next reader of the login state is not allowed to log in, or the
-- process has exited.
pub handle_reboot_closed :
    (q : Qt) (laws : QtLaws q) (w : World) (r : ModuleRequest) (s : Firmware)
    → (handle_reboot q w r s).response.success ≡ true
    → (s.reboot_required ≡ true)
      × (is_busy s ≡ false)
      × (((handle_reboot q w r s).firmware.exited ≡ true)
          ⊎ ((read_login_state q w.path (handle_reboot q w r s).firmware.login).allowed ≡ false))
unfolding handle_reboot eqb
handle_reboot_closed q laws w r s =
    let blocked = block_login_for_reboot q w.path w.calls w.removed (codes "reboot") s.login in
    if_both R (is_busy s || not s.reboot_required) (λ _ b. absurd (ground arith))
      (λ free.
        if_both R (not blocked.result) (λ _ b. absurd (ground arith))
          (λ _ _. (
            ground arith,
            ground arith,
            block_login_for_reboot-closed q laws w.path w.calls w.removed (codes "reboot") s.login
                refl,
          )))
  where
    R : Result → Type 0
    R a =
        a.response.success ≡ true
        → (s.reboot_required ≡ true)
          × (is_busy s ≡ false)
          × ((a.firmware.exited ≡ true)
              ⊎ ((read_login_state q w.path a.firmware.login).allowed ≡ false))
