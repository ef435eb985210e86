-- ===== src/TempFile.antt =====
-- src/util/temp_file.{hh,cc}: files with names that no other file has. mkstemp(3) and unlink(2) are
-- parameters.
pub mod Laws
use koho.Prelude.{
  ℕ, zero, suc, ◌+◌, Bool, true, false, not, Option, none, some, List, [], ◌∷◌, ◌++◌, ltb,
  if◌then◌else◌, length, Outcome, ok, thrown, assert, system_call, system_call_text, M, ◌>>=◌, ◌>>◌,
  ◌>>>◌, catching,
}
use koho.Text.{bytes}
use koho.FileDescriptor
use koho.FileDescriptor.{FileDescriptor, Os, Sink}

pub record UniqueFile : Type 0 where
  pub mutable_temp_filename : List ℕ
  pub file : Sink
  pub moved_away : Bool

unfoldable pub to_mutable : List ℕ → List ℕ
to_mutable str = str ++ 0 ∷ []

-- mkstemp(3) writes the name that it has chosen over its argument.
unfoldable pub construct :
    (List ℕ → Option (ℕ × List ℕ)) → (ℕ → Option ℕ) → List ℕ → Outcome UniqueFile
unfolding to_mutable FileDescriptor.construct
construct mkstemp fcntl filename_template = do
  made ← system_call "mkstemp" (mkstemp (to_mutable (filename_template ++ bytes ".XXXXXX")))
  fd ← FileDescriptor.construct made.0 (fcntl made.0)
  ok (record {
    mutable_temp_filename = made.1;
    file = record { descriptor = fd; accepted = [] };
    moved_away = false;
  })

-- all but the last byte
abbrev pub but_last : List ℕ → List ℕ
but_last [] = []
but_last (x ∷ []) = []
but_last (x ∷ y ∷ rest) = x ∷ but_last (y ∷ rest)

unfoldable pub name : UniqueFile → Outcome (List ℕ)
name s = do assert (ltb 1 (length s.mutable_temp_filename)); ok (but_last s.mutable_temp_filename)

unfoldable pub write : Os → List ℕ → M UniqueFile (List ℕ)
unfolding FileDescriptor.write
write os contents s = (assert (not s.moved_away), s) >>> λ _ t.
    let (r, file) = FileDescriptor.write os contents true t.file in (r, record t { file = file })

-- the new object, and what is left of the old one
unfoldable pub move : UniqueFile → UniqueFile × UniqueFile
unfolding FileDescriptor.move
move other =
    let (fd, rest) = FileDescriptor.move other.file.descriptor in
    (
      record other { file = record other.file { descriptor = fd }; moved_away = false },
      record other { file = record other.file { descriptor = rest }; moved_away = true },
    )

-- The destructor of a TempFile; unlink(2) is given over a state that only it knows.
unfoldable pub destroy : {W : Type 0} → (List ℕ → W → Option ℕ × W) → UniqueFile → M W (Unit {0})
unfolding name
destroy unlink s w =
    if s.moved_away
    then (ok tt, w)
    else catching
        ((name s, w) >>> λ file_name v.
          let (answer, u) = unlink file_name v in
          (system_call_text (bytes "unlink " ++ file_name) answer, u) >>> λ _ t. (ok tt, t))
        (λ _ v. (ok tt, v))
