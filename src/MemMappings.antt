-- ===== src/MemMappings.antt =====
-- src/mem_mappings.c, include/mem_mappings.h and src/commands/cmd_info_memory.c: the mappings of the
-- tracee, as the lines of /proc/<pid>/maps say.
pub mod Find
pub mod Numbers
pub mod Lines
use my_dbg.Base.{
  ℕ, zero, suc, ◌+◌, ◌-◌, ◌%◌, ◌^◌, Bool, true, false, not, ◌&&◌, List, [], ◌∷◌, ◌++◌, Option, none,
  some, Text, ltb, leb, ◌==◌, if◌then◌else◌, length, take, drop,
}
use my_dbg.Debugger.{MyException, Dbg, Line, M, fault, pure, print, ◌>>=◌, ◌>>◌}
use my_dbg.Debugger.Exceptions.{throw, new_env, delete_env}
use my_dbg.Format.{is_space, skip_space, scan_zx, scan_zu}

-- `struct my_mem_mapping`
pub record MyMemMapping : Type 0 where
  pub start : ℕ
  pub end : ℕ
  pub offset : ℕ
  pub objfile : Text

-- What the program asks of the operating system about /proc/<pid>/maps: its lines, where it can be
-- opened, whether an error ends the reading, and whether it can be closed.
pub record Maps (P : Type 0) : Type 0 where
  pub lines : (pid : ℕ) → P → Option (List Text)
  pub breaks : (pid : ℕ) → P → Bool
  pub closes : (pid : ℕ) → P → Bool

-- One directive of the format: the text behind what it reads, and the value
abbrev pub Scanned : Type 0
Scanned = Option (ℕ × Text)

infixl 5 ◌>>=!◌
abbrev pub ◌>>=!◌ : {A : Type 0} → Scanned → (ℕ → Text → Option A) → Option A
none >>=! f = none
some (v, t) >>=! f = f v t

-- "%8zx" and "%2llx": at most `width` characters behind the white space
unfoldable pub scan_width : (width : ℕ) → Text → Scanned
scan_width width t =
    let front = skip_space t in
    scan_zx (take width front) >>=! λ v rest. some (v, rest ++ drop width front)

-- "%c"
unfoldable pub scan_c : Text → Scanned
scan_c [] = none
scan_c (c ∷ cs) = some (c, cs)

-- An ordinary character of the format
unfoldable pub scan_char : ℕ → Text → Scanned
scan_char want [] = none
scan_char want (c ∷ cs) = if c == want then some (c, cs) else none

-- "%s", with nothing where the line ends
unfoldable pub word : Text → Text
word [] = []
word (c ∷ cs) = let rest = word cs in if is_space c then [] else c ∷ rest

-- "%zx-%zx %c%c%c%c %8zx %2llx:%2llx %llu %s", where `sscanf` returns 10 or 11
unfoldable pub scan_line : Text → Option MyMemMapping
unfolding scan_width scan_c scan_char word skip_space
scan_line line = scan_zx line >>=! λ start t1. scan_char b'-' t1 >>=! λ _ t2.
    scan_zx t2 >>=! λ end t3. scan_c (skip_space t3) >>=! λ _ t4. scan_c t4 >>=! λ _ t5.
    scan_c t5 >>=! λ _ t6. scan_c t6 >>=! λ _ t7. scan_width 8 t7 >>=! λ offset t8.
    scan_width 2 t8 >>=! λ _ t9. scan_char b':' t9 >>=! λ _ t10. scan_width 2 t10 >>=! λ _ t11.
    scan_zu t11 >>=! λ _ t12.
    some (record { start = start; end = end; offset = offset; objfile = word (skip_space t12) })

-- How the reading of the lines ends: with all mappings, or with an exception when some entries of the
-- array are set, or in a write behind the MY_PATH_MAX bytes of `objfile`
pub data Reading : Type 0 where
  complete : List MyMemMapping → Reading
  stopped : MyException → (entries : ℕ) → Reading
  overrun : Reading

-- `add_mem_mapping` for each line. It sets the entry before it scans the line.
unfoldable pub add_mem_mappings : List Text → (error : Bool) → List MyMemMapping → Reading
unfolding scan_line
add_mem_mappings [] error mappings =
    if error
    then Reading.stopped MyException.io_exception (length mappings)
    else Reading.complete mappings
add_mem_mappings (line ∷ lines) error mappings = elim (scan_line line) [
  | none ↦ Reading.stopped MyException.scanf_exception (length mappings + 1)
  | some m ↦
      let rest = add_mem_mappings lines error (mappings ++ m ∷ []) in
      if leb 4096 (length m.objfile) then Reading.overrun else rest
]

module _ {P : Type 0} where
  -- The `catch` frees the array, and looks for its end where no NULL has been put yet.
  unfoldable pub finish_reading : Reading → M P (List MyMemMapping)
  unfolding delete_env throw
  finish_reading (complete mappings) = delete_env >> pure mappings
  finish_reading (stopped e entries) =
      if entries == 0 then (delete_env >> throw e) else (λ s. fault)
  finish_reading overrun = λ s. fault

  unfoldable pub get_mem_mappings_file :
      (lines : List Text) → (error : Bool) → M P (List MyMemMapping)
  unfolding new_env finish_reading add_mem_mappings
  get_mem_mappings_file lines error = new_env >> finish_reading (add_mem_mappings lines error [])

  unfoldable pub close_maps : ⦃maps : Maps P⦄ → List MyMemMapping → M P (List MyMemMapping)
  unfolding throw
  close_maps ⦃maps = maps⦄ mappings s =
      if maps.closes s.pid s.process
      then pure mappings s
      else (print (Line.text "fclose") >> throw MyException.io_exception) s

  unfoldable pub get_mem_mappings : ⦃maps : Maps P⦄ → M P (List MyMemMapping)
  unfolding get_mem_mappings_file close_maps throw
  get_mem_mappings ⦃maps = maps⦄ s = elim (maps.lines s.pid s.process) [
    | none ↦ (print (Line.text "fopen") >> throw MyException.io_exception) s
    | some lines ↦
        (get_mem_mappings_file lines (maps.breaks s.pid s.process) >>= λ mappings.
        close_maps mappings)
          s
  ]

  unfoldable pub print_mappings : List MyMemMapping → M P (Unit {0})
  print_mappings [] = pure tt
  print_mappings (m ∷ mappings) = do
    print (Line.mapping_row m.start m.end ((m.end + 2 ^ 64 - m.start) % 2 ^ 64) m.offset m.objfile)
    print_mappings mappings

  unfoldable pub cmd_info_memory : ⦃maps : Maps P⦄ → M P (Unit {0})
  unfolding get_mem_mappings print_mappings
  cmd_info_memory = do
    mappings ← get_mem_mappings
    print (Line.text "Start Addr, End Addr, Size, Offset, Objfile")
    print_mappings mappings

unfoldable pub find_mem_mappings : List MyMemMapping → (addr : ℕ) → Option MyMemMapping
find_mem_mappings [] addr = none
find_mem_mappings (m ∷ mappings) addr =
    if leb m.start addr && ltb addr m.end then some m else find_mem_mappings mappings addr
