-- ===== src/Firmware/Complete.antt =====
-- backend/api/modules/FirmwareUpdateRuntime.cpp: theorems on the image that is uploaded.
use everest_ui.Base.{
  ℕ, ◌+◌, ◌≤◌, ◌*◌, true, false, ◌&&◌, ◌||◌, not, ◌++◌, Option, none, some, ◌==◌, ◌≡◌, refl, sym,
  ap, ◌∙◌, if_both, arith, leb, length, length-append, is_empty, is_some,
}
use native.Mathlib.Nat.{add-mul}
use everest_ui.Base.Text.{Text, eqb}
use everest_ui.Base.Int.{ℤ, pos, negsuc}
use everest_ui.Api.Types.{ModuleRequest}
use everest_ui.Firmware.State.{
  Firmware, World, ImageDir, found, refused, Space, enough, lacking, reset_upload_state,
  abort_upload,
}
use everest_ui.Firmware.Upload.{
  Result, appended, Announced, open_upload, check_space, clean_images, find_dir, start_announced,
  write_chunk, chunk_at, digest, finish_with,
}

-- An upload that runs or has finished: its file has as many bytes as were counted, never more than
-- were announced, and never more than its chunks can hold.
pub record IsCounted (s : Firmware) : Type 0 where
  pub exclusive : (s.upload_running && s.upload_finished) ≡ false
  pub present : (s.upload_running || s.upload_finished) ≡ true → is_some s.image ≡ true
  pub stored : (image : Text) → s.image ≡ some image → length image ≡ s.written_size
  pub announced : s.written_size ≤ s.expected_size
  pub chunks : s.next_chunk_index ≤ s.expected_chunk_count
  pub sizes : s.written_size ≤ s.next_chunk_index * s.expected_chunk_size
  pub finished : s.upload_finished ≡ true → s.written_size ≡ s.expected_size

pub reset-IsCounted : (s : Firmware) → IsCounted (reset_upload_state s)
unfolding reset_upload_state
reset-IsCounted s = record {
  exclusive = refl;
  present = λ e. absurd (ground arith);
  stored = λ image e. absurd (ground arith);
  announced = omega arith;
  chunks = omega arith;
  sizes = omega arith;
  finished = λ e. absurd (ground arith);
}

abbrev P : Result → Type 0
P r = IsCounted r.firmware

appended-length :
    (chunk : Text) (o : Option Text) (written : ℕ) (image : Text)
    → ((old : Text) → o ≡ some old → length old ≡ written)
    → appended chunk o ≡ some image
    → length image ≡ written + length chunk
appended-length chunk none written image h e = absurd (ground arith)
appended-length chunk (some old) written image h e =
    let known = h old refl in
    length_of (old ++ chunk) image e ∙ (let sum = length-append old chunk in omega arith)
  where
    size : Option Text → ℕ
    size none = 0
    size (some a) = length a

    length_of : (a b : Text) → some a ≡ some b → length b ≡ length a
    length_of a b e = ap size (sym e)

appended_present :
    (chunk : Text) (o : Option Text) → is_some o ≡ true → is_some (appended chunk o) ≡ true
appended_present chunk (some old) h = refl
appended_present chunk none h = h

write_chunk-IsCounted :
    (w : World) (r : ModuleRequest) (chunk : Text) (s : Firmware)
    → s.upload_finished ≡ false
    → leb s.expected_chunk_count s.next_chunk_index ≡ false
    → IsCounted s
    → P (write_chunk w r chunk s)
unfolding write_chunk abort_upload
write_chunk-IsCounted w r chunk s f before h =
    if_both P (is_empty chunk) (λ _. h)
      (λ _.
        if_both P (not (leb (length chunk) s.expected_chunk_size)) (λ _. h)
          (λ small.
            if_both P (not (leb (s.written_size + length chunk) s.expected_size))
              (λ _. reset-IsCounted s)
              (λ fits.
                if_both P (not w.write_complete) (λ _. reset-IsCounted s)
                  (λ _. record {
                    exclusive = h.exclusive;
                    present = λ up. appended_present chunk s.image (h.present up);
                    stored = λ image. appended-length chunk s.image s.written_size image h.stored;
                    announced = ground arith;
                    chunks = ground arith;
                    sizes =
                        (let step = add-mul s.next_chunk_index 1 s.expected_chunk_size in
                          ground arith);
                    finished = λ e. absurd (ground arith);
                  }))))

pub chunk_at-IsCounted :
    (w : World) (r : ModuleRequest) (i : ℤ) (text : Text) (s : Firmware)
    → s.upload_finished ≡ false
    → IsCounted s
    → P (chunk_at w r i text s)
unfolding chunk_at
chunk_at-IsCounted w r (negsuc n) text s f h = h
chunk_at-IsCounted w r (pos n) text s f h =
    if_both P (is_empty text) (λ _. h)
      (λ _.
        if_both P (not (n == s.next_chunk_index) || leb s.expected_chunk_count n) (λ _. h)
          (λ next. write_chunk-IsCounted w r (w.from_base64 text) s f (ground arith) h))

pub finish_with-IsCounted :
    (w : World) (r : ModuleRequest) (expected : Text) (s : Firmware)
    → s.upload_running ≡ true
    → IsCounted s
    → P (finish_with w r expected s)
unfolding finish_with abort_upload
finish_with-IsCounted w r expected s up h =
    if_both P (is_empty expected) (λ _. h)
      (λ _.
        if_both P
          (not (s.next_chunk_index == s.expected_chunk_count)
            || not (s.written_size == s.expected_size))
          (λ _. reset-IsCounted s)
          (λ full.
            if_both P (not w.flushed) (λ _. reset-IsCounted s)
              (λ _.
                if_both P (not w.readable || not w.hashed) (λ _. reset-IsCounted _)
                  (λ _.
                    if_both P (not (eqb (digest w s.image) expected)) (λ _. reset-IsCounted _)
                      (λ _. record {
                        exclusive = refl;
                        present = λ _. h.present (ground arith);
                        stored = h.stored;
                        announced = h.announced;
                        chunks = h.chunks;
                        sizes = h.sizes;
                        finished = λ _. ground arith;
                      })))))

open_upload-IsCounted :
    (w : World) (r : ModuleRequest) (directory : Text) (a : Announced) (s : Firmware)
    → P (open_upload w r directory a s)
unfolding open_upload
open_upload-IsCounted w r directory a s =
    if_both P (not w.opened) (λ _. reset-IsCounted s)
      (λ _. record {
        exclusive = refl;
        present = λ _. refl;
        stored = λ image e. ap size (sym e);
        announced = omega arith;
        chunks = omega arith;
        sizes = omega arith;
        finished = λ e. absurd (ground arith);
      })
  where
    size : Option Text → ℕ
    size none = 0
    size (some a) = length a

pub start-IsCounted :
    (w : World) (r : ModuleRequest) (o : Option Announced) (s : Firmware)
    → IsCounted s
    → P (start_announced w r o s)
unfolding start_announced find_dir clean_images check_space
start-IsCounted w r none s h = h
start-IsCounted w r (some a) s h = in_dir w.image_dir
  where
    spaced : (directory : Text) (space : Space) → P (check_space w r directory a space s)
    spaced directory enough = open_upload-IsCounted w r directory a s
    spaced directory (lacking error available required) = h

    cleaned : (directory : Text) (o : Option Text) → P (clean_images w r directory a o s)
    cleaned directory (some error) = h
    cleaned directory none = spaced directory (w.space (pos a.size))

    in_dir : (d : ImageDir) → P (find_dir w r a d s)
    in_dir (refused error) = h
    in_dir (found directory) = cleaned directory w.cleanup_error
