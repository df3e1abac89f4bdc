-- ===== src/Login/Laws.antt =====
-- backend/config/LoginState.cpp: theorems on `readLoginState` and `blockLoginForReboot`.
use everest_ui.Base.{
  ◌≤◌, Bool, true, false, [], ◌∷◌, Option, none, some, ◌≡◌, refl, ◌⊎◌, if◌then◌else◌, arith, ltb,
  length, ◌∙◌, ap,
}
use everest_ui.Base.Text.{Text, codes, eqb, eqb_refl}
use everest_ui.Base.Json.{
  Json, undefined, null, bool, num, fraction, str, arr, obj, Fields, value, is_bool, is_string,
  to_bool, to_string,
}
use everest_ui.Auth.File.{is_version_one}
use everest_ui.Qt.{Qt, QtLaws}
use everest_ui.Login.State.{
  unavailable, waiting_for_reboot, LoginPath, is_safe, LoginFile, contents, WriteCalls, document,
  is_reboot_operation, accept, read_object, read_document, read_file, read_login_state, write_state,
  invalidate, block_login_for_reboot,
}

read_object-document :
    (gs : Fields) (allowed : Bool) (operation : Text)
    → ((k : Text) → value k gs ≡ value k (document allowed operation))
    → read_object gs ≡ accept allowed (if allowed then [] else waiting_for_reboot) operation
unfolding read_object document value eqb
read_object-document gs allowed operation same = simp same

module _ (q : Qt) (laws : QtLaws q) where
  -- A state that was written is read back through the tests, or refused for its size.
  read_file-document :
      (allowed : Bool) (operation : Text)
      → let bytes = q.to_json (document allowed operation) in
        read_file q (contents bytes) ≡ (
          if ltb 4096 (length bytes)
          then unavailable
          else accept allowed (if allowed then [] else waiting_for_reboot) operation)
  unfolding read_file read_document
  read_file-document allowed operation =
      let (gs, parsed, same) = laws.json_members (document allowed operation) in
      rw (parsed, read_document) (rw (read_object-document gs allowed operation same))

  accept_closed : (reason operation : Text) → (accept false reason operation).allowed ≡ false
  unfolding accept
  accept_closed reason operation = ground arith

  accept_blocked :
      (operation : Text)
      → is_reboot_operation operation ≡ true
      → accept false waiting_for_reboot operation
        ≡ record { allowed = false; reason = waiting_for_reboot; operation = operation }
  unfolding accept
  accept_blocked operation h = rw (eqb_refl waiting_for_reboot, h)

  read-document_blocked :
      (operation : Text)
      → is_reboot_operation operation ≡ true
      → length (q.to_json (document false operation)) ≤ 4096
      → read_file q (contents (q.to_json (document false operation)))
        ≡ record { allowed = false; reason = waiting_for_reboot; operation = operation }
  read-document_blocked operation h small =
      ground (arith, read_file-document false operation, accept_blocked operation h)

  read-document_closed :
      (path : LoginPath) (operation : Text)
      → (read_login_state q path (contents (q.to_json (document false operation)))).allowed ≡ false
  unfolding read_login_state
  read-document_closed path operation =
      let closed = accept_closed waiting_for_reboot operation in
      ground (arith, read_file-document false operation)

  read-missing_closed :
      (path : LoginPath) → (read_login_state q path LoginFile.missing).allowed ≡ false
  unfolding read_login_state read_file
  read-missing_closed path = ground arith

  -- After `blockLoginForReboot` has been called for one of the two operations, whatever the file
  -- system answers: either the process exits, or the next read does not allow the login.
  pub block_login_for_reboot-closed :
      (path : LoginPath) (calls : WriteCalls) (removed : Bool) (operation : Text) (file : LoginFile)
      → is_reboot_operation operation ≡ true
      → let r = block_login_for_reboot q path calls removed operation file in
        (r.exits ≡ true) ⊎ ((read_login_state q path r.file).allowed ≡ false)
  unfolding block_login_for_reboot write_state invalidate
  block_login_for_reboot-closed path calls removed operation LoginFile.missing h =
      let known = read-document_closed path operation in
      let gone = read-missing_closed path in ground arith
  block_login_for_reboot-closed path calls removed operation _ h =
      let known = read-document_closed path operation in
      let gone = read-missing_closed path in ground arith

  -- If `blockLoginForReboot` returns true, a reader of the same safe path sees the restriction with
  -- its reason and its operation, as long as the document has at most 4096 bytes.
  pub block_login_for_reboot-read :
      (path : LoginPath) (calls : WriteCalls) (removed : Bool) (operation : Text) (file : LoginFile)
      → length (q.to_json (document false operation)) ≤ 4096
      → (block_login_for_reboot q path calls removed operation file).result ≡ true
      → read_login_state q path (block_login_for_reboot q path calls removed operation file).file
        ≡ record { allowed = false; reason = waiting_for_reboot; operation = operation }
  unfolding block_login_for_reboot write_state invalidate read_login_state
  block_login_for_reboot-read path calls removed operation file small h =
      let known = read-document_blocked operation in ground arith

accept_allowed :
    (allowed : Bool) (reason operation : Text)
    → (accept allowed reason operation).allowed ≡ true
    → (allowed ≡ true) × (reason ≡ []) × (operation ≡ [])
unfolding accept
accept_allowed allowed [] [] h = ground arith
accept_allowed allowed (c ∷ reason) operation h = ground arith
accept_allowed allowed [] (c ∷ operation) h = ground arith

-- What an object that allows the login says.
pub record Opens (o : Fields) : Type 0 where
  pub version : is_version_one (value (codes "version") o) ≡ true
  pub login_allowed : value (codes "loginAllowed") o ≡ bool true
  pub reason : value (codes "loginDisabledReason") o ≡ str []
  pub operation : value (codes "rebootOperation") o ≡ str []

is_bool_inv : (v : Json) → is_bool v ≡ true → v ≡ bool (to_bool v)
is_bool_inv (bool b) h = refl
is_bool_inv undefined h = absurd (ground arith)
is_bool_inv null h = absurd (ground arith)
is_bool_inv (num n) h = absurd (ground arith)
is_bool_inv fraction h = absurd (ground arith)
is_bool_inv (str s) h = absurd (ground arith)
is_bool_inv (arr a) h = absurd (ground arith)
is_bool_inv (obj a) h = absurd (ground arith)

is_string_inv : (v : Json) → is_string v ≡ true → v ≡ str (to_string v)
is_string_inv (str s) h = refl
is_string_inv undefined h = absurd (ground arith)
is_string_inv null h = absurd (ground arith)
is_string_inv (num n) h = absurd (ground arith)
is_string_inv fraction h = absurd (ground arith)
is_string_inv (bool b) h = absurd (ground arith)
is_string_inv (arr a) h = absurd (ground arith)
is_string_inv (obj a) h = absurd (ground arith)

read_object_allowed : (o : Fields) → (read_object o).allowed ≡ true → Opens o
unfolding read_object
read_object_allowed o h =
    let allowed = value (codes "loginAllowed") o in
    let reason = value (codes "loginDisabledReason") o in
    let operation = value (codes "rebootOperation") o in
    let (a, r, p) =
      accept_allowed (to_bool allowed) (to_string reason) (to_string operation) (ground arith) in
    record {
      version = ground arith;
      login_allowed = is_bool_inv allowed (ground arith) ∙ ap bool a;
      reason = is_string_inv reason (ground arith) ∙ ap str r;
      operation = is_string_inv operation (ground arith) ∙ ap str p;
    }

parsed_allowed :
    (q : Qt) (j : Option Json)
    → (read_document q j).allowed ≡ true
    → (o : Fields) × (j ≡ some (obj o)) × Opens o
unfolding read_document
parsed_allowed q (some (obj o)) h = (o, refl, read_object_allowed o h)
parsed_allowed q none h = absurd (ground arith)
parsed_allowed q (some undefined) h = absurd (ground arith)
parsed_allowed q (some null) h = absurd (ground arith)
parsed_allowed q (some (num n)) h = absurd (ground arith)
parsed_allowed q (some fraction) h = absurd (ground arith)
parsed_allowed q (some (bool b)) h = absurd (ground arith)
parsed_allowed q (some (str s)) h = absurd (ground arith)
parsed_allowed q (some (arr a)) h = absurd (ground arith)

-- `readLoginState` allows the login only if the file is found at a safe path, is not longer than
-- 4096 bytes, and is an object of version 1 that says so, with an empty reason and an empty
-- operation.
pub read_login_state_allowed :
    (q : Qt) (path : LoginPath) (file : LoginFile)
    → (read_login_state q path file).allowed ≡ true
    → (is_safe path ≡ true)
      × ((bytes : Text) × (o : Fields) × (file ≡ contents bytes)
          × (length bytes ≤ 4096)
          × (q.from_json bytes ≡ some (obj o))
          × Opens o)
unfolding read_login_state read_file
read_login_state_allowed q path LoginFile.missing h = absurd (ground arith)
read_login_state_allowed q path LoginFile.unreadable h = absurd (ground arith)
read_login_state_allowed q path (contents bytes) h =
    let (o, parsed, opens) = parsed_allowed q (q.from_json bytes) (ground arith) in
    (ground arith, (bytes, o, refl, ground arith, parsed, opens))
