-- ===== src/Reset/Marker.antt =====
-- backend/webserver/auth/PasswordReset.cpp: the boot marker, four bytes of a register file.
use everest_ui.Base.{
  zero, suc, false, not, leb, length, ℕ, ◌+◌, ◌*◌, Bool, ◌&&◌, List, [], ◌∷◌, ◌++◌, if◌then◌else◌,
  ◌==◌, take, drop,
}
use everest_ui.Reset.State.{Classification, cold, warm, invalid}

abbrev pub marker_offset : ℕ
marker_offset = 28

abbrev pub warm_marker : ℕ
warm_marker = 0x5741524d

-- `seek(28)` and `read(4)`.
abbrev pub read_marker : List ℕ → List ℕ
read_marker register = take 4 (drop marker_offset register)

-- `qFromLittleEndian<quint32>` of four bytes, and the classification of its value.
unfoldable pub classify : List ℕ → Classification
classify (a ∷ b ∷ c ∷ d ∷ []) =
    let value = a + b * 256 + c * 65536 + d * 16777216 in
    if value == 0 then cold else if value == warm_marker then warm else invalid
classify _ = invalid

-- `QFile::open`: the contents that it leaves.
pub data OpenMode : Type 0 where
  read_write write_only : OpenMode

abbrev pub open_with : OpenMode → List ℕ → List ℕ
open_with read_write contents = contents
open_with write_only contents = []

-- The bytes up to `at`; a file that is shorter is filled with zeros when something is written behind
-- its end.
unfoldable pub up_to : (at : ℕ) → List ℕ → List ℕ
up_to zero contents = []
up_to (suc n) [] = 0 ∷ up_to n []
up_to (suc n) (b ∷ bs) = b ∷ up_to n bs

-- Some bytes that reach the file at `at`.
unfoldable pub write_at : (at : ℕ) → (bytes contents : List ℕ) → List ℕ
write_at at [] contents = contents
write_at at (b ∷ bs) contents =
    up_to at contents ++ ((b ∷ bs) ++ drop (at + length (b ∷ bs)) contents)

-- The outcomes of the calls of `clearMarker`: `written` of the four bytes reach the file.
pub record ClearCalls : Type 0 where
  pub opened : Bool
  pub sought : Bool
  pub written : ℕ
  pub flushed : Bool

abbrev pub zeros : List ℕ
zeros = 0 ∷ 0 ∷ 0 ∷ 0 ∷ []

unfoldable pub clear_marker : ClearCalls → List ℕ → List ℕ × Bool
clear_marker calls register =
    let register' = open_with read_write register in
    if not calls.opened
    then (register, false)
    else if not calls.sought
    then (register', false)
    else (
      write_at marker_offset (take calls.written zeros) register',
      leb 4 calls.written && calls.flushed,
    )
