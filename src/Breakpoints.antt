-- ===== src/Breakpoints.antt =====
-- src/breakpoints.c. A `struct my_bp *` is an index into `g_breakpoints`.
pub mod Memory
pub mod Lookup
use my_dbg.Base.{
  ℕ, zero, suc, ◌+◌, ◌-◌, ◌%◌, ◌^◌, Bool, true, false, not, ◌&&◌, List, [], ◌∷◌, ◌++◌, Option, none,
  some, ◌==◌, if◌then◌else◌, length, get_elem?, set, high_bytes, low_byte,
}
use my_dbg.Debugger.{Request, Kernel, Flags, Bp, Dbg, ok, fault, M, pure, get, modify, ◌>>=◌, ◌>>◌}
use my_dbg.Debugger.Tracee.{my_ptrace}

-- The values of `enum my_bp_flags` that the program passes
abbrev pub no_flags : Flags
no_flags = record { temp = false; internal = false; syscall = false }

abbrev pub temp_flag : Flags
temp_flag = record { temp = true; internal = false; syscall = false }

abbrev pub temp_internal_flags : Flags
temp_internal_flags = record { temp = true; internal = true; syscall = false }

abbrev pub syscall_flag : Flags
syscall_flag = record { temp = false; internal = false; syscall = true }

-- The test of `get_breakpoint`
unfoldable pub is_at : ℕ → Bp → Bool
is_at addr bp = bp.addr == addr && (bp.enabled && (not bp.deleted && not bp.flags.syscall))

-- The loop of `get_breakpoint`, from index `i` on
unfoldable pub get_loop : ℕ → ℕ → List Bp → Option ℕ
unfolding is_at
get_loop addr i [] = none
get_loop addr i (bp ∷ bps) = if is_at addr bp then some i else get_loop addr (i + 1) bps

module _ {P : Type 0} where
  unfoldable pub get_breakpoint : ℕ → M P (Option ℕ)
  get_breakpoint addr s = ok (get_loop addr 0 s.breakpoints) s

  unfoldable pub is_breakpoint : ℕ → M P Bool
  unfolding get_breakpoint
  is_breakpoint addr = do bp ← get_breakpoint addr; pure (elim bp [ none ↦ false | some _ ↦ true ])

  -- `*bp`
  unfoldable pub load_bp : ℕ → M P Bp
  load_bp i s = elim (get_elem? s.breakpoints i) [ none ↦ fault | some bp ↦ ok bp s ]

  -- `*bp = b`
  unfoldable pub store_bp : ℕ → Bp → M P (Unit {0})
  store_bp i b s = ok tt (record s { breakpoints = set s.breakpoints i b })

module _ {P : Type 0} ⦃k : Kernel P⦄ where
  -- `toggle_breakpoint` behind its early return
  unfoldable pub flip_trap : ℕ → Bp → M P (Unit {0})
  unfolding store_bp
  flip_trap i bp = do
    word ← my_ptrace Request.peek_data bp.addr 0
    my_ptrace Request.poke_data bp.addr
        (high_bytes word + (if not bp.enabled then 0xcc else low_byte bp.word))
    store_bp i (record bp { enabled = not bp.enabled })

  unfoldable pub toggle_breakpoint : ℕ → M P (Unit {0})
  unfolding load_bp flip_trap
  toggle_breakpoint i = do
    bp ← load_bp i
    if not bp.enabled && bp.flags.temp then pure tt else flip_trap i bp

  -- The word that the record keeps: the tracee's word before the patch, or for a system call its
  -- index in `g_syscalls`.
  unfoldable pub patch : ℕ → Flags → M P ℕ
  patch addr flags =
      if not flags.syscall
      then (do
        word ← my_ptrace Request.peek_data addr 0
        my_ptrace Request.poke_data addr (high_bytes word + 0xcc)
        pure word)
      else (do s ← get; pure ((length s.syscalls + 2 ^ 64 - 1) % 2 ^ 64))

  unfoldable pub place_breakpoint : ℕ → Flags → M P ℕ
  unfolding patch
  place_breakpoint addr flags = do
    word ← patch addr flags
    s ← get
    modify λ t. record t {
      breakpoints =
          t.breakpoints
          ++ record {
            id = length s.breakpoints + 1;
            flags = flags;
            addr = addr;
            word = word;
            enabled = true;
            deleted = false;
          }
            ∷ [];
    }
    pure (length s.breakpoints + 1)
