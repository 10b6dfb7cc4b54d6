-- ===== src/Dwarf/Tables/Files.antt =====
-- `store_files` reads what an assembler writes.
use mathlib.Core.List.{append_assoc}
use my_dbg.Base.{
  ℕ, zero, suc, ◌+◌, ◌≤◌, ◌<◌, ◌≡◌, refl, ◌∙◌, false, List, [], ◌∷◌, ◌++◌, Text, All, arith, ◌==◌,
  length, length-append,
}
use my_dbg.Dwarf.Result.{ok, ◌>>=◌}
use my_dbg.Dwarf.Leb128.{IsNumber, joined, read_leb128-IsNumber}
use my_dbg.Dwarf.Tables.{MyDwFile, take_string, files_loop, store_files}

-- The path of a file and the bytes of its three numbers in the table
pub record FileBytes : Type 0 where
  pub path : Text
  pub index : List ℕ
  pub time : List ℕ
  pub size : List ℕ

-- A path that is not empty and has no null byte, and numbers for which the shifts of `read_leb128` are
-- defined
pub record IsEntry (f : FileBytes) : Type 0 where
  pub not_empty : 0 < length f.path
  pub no_null : All (λ c. (c == 0) ≡ false) f.path
  pub index : IsNumber 0 f.index
  pub time : IsNumber 0 f.time
  pub size : IsNumber 0 f.size

-- The entry of a file in the table
abbrev pub encode_file : FileBytes → List ℕ
encode_file f = f.path ++ 0 ∷ (f.index ++ (f.time ++ f.size))

abbrev pub encode_files : List FileBytes → List ℕ
encode_files [] = 0 ∷ []
encode_files (f ∷ fs) = encode_file f ++ encode_files fs

-- The file with its numbers as `read_leb128` reads them
abbrev pub as_read : FileBytes → MyDwFile
as_read f = record {
  path = f.path;
  index = joined 0 0 f.index;
  last_modification = joined 0 0 f.time;
  file_size = joined 0 0 f.size;
}

abbrev pub all_read : List FileBytes → List MyDwFile
all_read [] = []
all_read (f ∷ fs) = as_read f ∷ all_read fs

take_string_lem :
    (s rest : Text) → All (λ c. (c == 0) ≡ false) s → take_string (s ++ 0 ∷ rest) ≡ ok (s, rest)
unfolding take_string
take_string_lem [] rest h = refl
take_string_lem (c ∷ s) rest (c_ne, h) = rw (take_string_lem s rest h, c_ne) refl

-- The bytes of an entry, with what follows it
encode_file-append :
    (f : FileBytes) (rest : List ℕ)
    → encode_file f ++ rest ≡ f.path ++ 0 ∷ (f.index ++ (f.time ++ (f.size ++ rest)))
encode_file-append f rest =
    rw
      (
        append_assoc f.path (0 ∷ (f.index ++ (f.time ++ f.size))) rest,
        append_assoc f.index (f.time ++ f.size) rest,
        append_assoc f.time f.size rest,
      )
      refl

-- One round on an entry
entry_lem :
    (fuel : ℕ) (path : Text) (index time size rest : List ℕ)
    → 0 < length path
    → All (λ d. (d == 0) ≡ false) path
    → IsNumber 0 index
    → IsNumber 0 time
    → IsNumber 0 size
    → files_loop (suc fuel) (path ++ 0 ∷ (index ++ (time ++ (size ++ rest)))) ≡ (
        files_loop fuel rest >>= λ files.
        ok (as_read (record { path = path; index = index; time = time; size = size }) ∷ files))
unfolding files_loop
entry_lem fuel [] index time size rest pos clean h1 h2 h3 = absurd (omega arith)
entry_lem fuel (c ∷ p) index time size rest pos (c_ne, clean) h1 h2 h3 = rw c_ne (
    rw (take_string_lem p (index ++ (time ++ (size ++ rest))) clean) (
      rw
        (
          read_leb128-IsNumber index (time ++ (size ++ rest)) h1,
          read_leb128-IsNumber time (size ++ rest) h2,
          read_leb128-IsNumber size rest h3,
        )
        refl))

file_lem :
    (fuel : ℕ) (f : FileBytes) (rest : List ℕ)
    → IsEntry f
    → files_loop (suc fuel) (encode_file f ++ rest)
      ≡ (files_loop fuel rest >>= λ files. ok (as_read f ∷ files))
file_lem fuel f rest h =
    rw (encode_file-append f rest)
      (entry_lem fuel f.path f.index f.time f.size rest h.not_empty h.no_null h.index h.time h.size)

length-encode_files : (fs : List FileBytes) → length fs ≤ length (encode_files fs)
length-encode_files [] = omega arith
length-encode_files (f ∷ fs) = omega (
  arith,
  length-encode_files fs,
  length-append (encode_file f) (encode_files fs),
  length-append f.path (0 ∷ (f.index ++ (f.time ++ f.size))),
)

files_end : (fuel : ℕ) (rest : List ℕ) → files_loop (suc fuel) (0 ∷ rest) ≡ ok []
unfolding files_loop
files_end fuel rest = refl

files_loop_lem :
    (fs : List FileBytes) (fuel : ℕ) (rest : List ℕ)
    → All IsEntry fs
    → length fs < fuel
    → files_loop fuel (encode_files fs ++ rest) ≡ ok (all_read fs)
files_loop_lem fs zero rest h enough = absurd (omega arith)
files_loop_lem [] (suc fuel) rest h enough = files_end fuel rest
files_loop_lem (f ∷ fs) (suc fuel) rest (h, hs) enough =
    rw (append_assoc (encode_file f) (encode_files fs) rest) (
      file_lem fuel f (encode_files fs ++ rest) h
      ∙ rw (files_loop_lem fs fuel rest hs (omega arith)) refl)

-- From the table of some files, whatever follows it, `store_files` reads these files in their order,
-- each with its path and with the "or" of the bytes of each of its numbers, shifted by 7 more from one
-- to the next and with bit 7 of each byte left in. No path is empty or has a null byte, and the numbers
-- are complete and small enough for the shifts to be defined.
pub store_files-encode_files :
    (fs : List FileBytes) (rest : List ℕ)
    → All IsEntry fs
    → store_files (encode_files fs ++ rest) ≡ ok (all_read fs)
unfolding store_files
store_files-encode_files fs rest h =
    files_loop_lem fs (length (encode_files fs ++ rest) + 1) rest h
      (omega (arith, length-encode_files fs, length-append (encode_files fs) rest))
