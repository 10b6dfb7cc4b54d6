-- ===== src/Breakpoints/Memory.antt =====
-- What placing and toggling do to the tracee's memory.
use my_dbg.Base.{
  ℕ, inl, inr, ◌+◌, ◌^◌, ◌<◌, ◌≡◌, refl, Bool, true, false, [], ◌∷◌, ◌++◌, some, arith, length, not,
  Bool-cases, ◌&&◌, ◌⊎◌, if◌then◌else◌, get_elem?, set, get_elem?-append_end, set-append_end, List,
  high_bytes, low_byte, high_bytes-add, high_bytes-low_byte, low_byte-lt,
}
use my_dbg.Debugger.{Request, Kernel, done, Flags, Bp, Dbg, ok}
use my_dbg.Debugger.Laws.{HasMemory}
use my_dbg.Debugger.Tracee.{my_ptrace}
use my_dbg.Breakpoints.{place_breakpoint, load_bp, toggle_breakpoint}

-- The word at `addr` in the tracee's memory is `w`.
abbrev pub Holds : {P : Type 0} → Kernel P → Dbg P → (addr w : ℕ) → Type 0
Holds k s addr w = k.ptrace Request.peek_data s.pid addr 0 s.process ≡ done (w, s.process)

byte-lt : (on : Bool) (word : ℕ) → (if not on then 0xcc else low_byte word) < 256
byte-lt true word = low_byte-lt word
byte-lt false word = omega arith

high_bytes-lt : (w b : ℕ) → w < 2 ^ 64 → b < 256 → high_bytes w + b < 2 ^ 64
unfolding high_bytes
high_bytes-lt w b h l = omega arith

then_holds : {A : Type 0} (B : Type 0) (b : Bool) → b ≡ true → A → if b then A else B
then_holds B true e a = a
then_holds B false e a = cc

else_holds : (A : Type 0) {B : Type 0} (b : Bool) → b ≡ false → B → if b then A else B
else_holds A true e b = cc
else_holds A false e b = b

module _ {P : Type 0} ⦃k : Kernel P⦄ (law : HasMemory k) where
  -- A poke at a readable address succeeds, and the word is then found there.
  pub my_ptrace_poke :
      (s : Dbg P) (addr w x : ℕ)
      → x < 2 ^ 64
      → Holds k s addr w
      → (r : ℕ) × (p : P) × (my_ptrace Request.poke_data addr x s ≡ ok r (record s { process = p }))
        × Holds k (record s { process = p }) addr x
  unfolding my_ptrace
  my_ptrace_poke s addr w x h e =
      let (r, p, wrote) = law.poke_done s.pid addr x w s.process s.process e in
      (r, p, rw (wrote, my_ptrace), law.peek-poke s.pid addr x r s.process p h wrote)

  pub my_ptrace_peek :
      (s : Dbg P) (addr w : ℕ) → Holds k s addr w → my_ptrace Request.peek_data addr 0 s ≡ ok w s
  unfolding my_ptrace
  my_ptrace_peek s addr w e = rw (e, my_ptrace)

-- The record that `place_breakpoint` appends
abbrev pub new_bp : (id : ℕ) → Flags → (addr word : ℕ) → Bp
new_bp id flags addr word = record {
  id = id;
  flags = flags;
  addr = addr;
  word = word;
  enabled = true;
  deleted = false;
}

module _ {P : Type 0} ⦃k : Kernel P⦄ (law : HasMemory k) where
  -- At a readable address `place_breakpoint` returns the number of the new breakpoint, puts the
  -- byte 0xCC at the address, keeps the other seven bytes of the word, and remembers the word.
  pub place_breakpoint-Holds :
      (s : Dbg P) (addr w : ℕ) (flags : Flags)
      → flags.syscall ≡ false
      → Holds k s addr w
      → (p : P) × (place_breakpoint addr flags s
          ≡ ok (length s.breakpoints + 1) (record s {
            process = p;
            breakpoints = s.breakpoints ++ new_bp (length s.breakpoints + 1) flags addr w ∷ [];
          }))
        × (k.ptrace Request.peek_data s.pid addr 0 p ≡ done (high_bytes w + 0xcc, p))
  unfolding place_breakpoint
  place_breakpoint-Holds s addr w flags plain e =
      let small : w < 2 ^ 64 = (law.peek_same s.pid addr 0 w s.process s.process e).1 in
      let (r, p, wrote, found) =
        my_ptrace_poke law s addr w (high_bytes w + 0xcc) (high_bytes-lt w 0xcc small (omega arith))
          e in
      (p, rw (plain, my_ptrace_peek law s addr w e, wrote), found)

  -- One toggle of a breakpoint with a readable word `w`
  pub toggle_breakpoint-Holds :
      (s : Dbg P) (i w : ℕ) (bp : Bp)
      → get_elem? s.breakpoints i ≡ some bp
      → (bp.enabled ≡ true) ⊎ (bp.flags.temp ≡ false)
      → Holds k s bp.addr w
      → (p : P) × (toggle_breakpoint i s
          ≡ ok tt (record s {
            process = p;
            breakpoints = set s.breakpoints i (record bp { enabled = not bp.enabled });
          }))
        × (k.ptrace Request.peek_data s.pid bp.addr 0 p
            ≡ done (high_bytes w + (if not bp.enabled then 0xcc else low_byte bp.word), p))
  unfolding toggle_breakpoint
  toggle_breakpoint-Holds s i w bp at_i live e =
      let small : w < 2 ^ 64 = (law.peek_same s.pid bp.addr 0 w s.process s.process e).1 in
      let byte : ℕ = if not bp.enabled then 0xcc else low_byte bp.word in
      let (r, p, wrote, found) =
        my_ptrace_poke law s bp.addr w (high_bytes w + byte)
          (high_bytes-lt w byte small (byte-lt bp.enabled bp.word)) e in
      let acts : (not bp.enabled && bp.flags.temp) ≡ false = ground arith in
      (p, rw (at_i, load_bp) (rw acts (rw (my_ptrace_peek law s bp.addr w e, wrote))), found)

  -- A disabled breakpoint that is temporary stays as it is.
  toggle_breakpoint-temp :
      (s : Dbg P) (i : ℕ) (bp : Bp)
      → get_elem? s.breakpoints i ≡ some bp
      → bp.enabled ≡ false
      → bp.flags.temp ≡ true
      → toggle_breakpoint i s ≡ ok tt s
  unfolding toggle_breakpoint
  toggle_breakpoint-temp s i bp at_i off temp = rw (at_i, load_bp) (rw (off, temp))

  -- At a readable address, placing a breakpoint on code sets the trap, and toggling it gives the tracee's word
  -- back and leaves the breakpoint disabled. A second toggle leaves a temporary breakpoint and the
  -- whole state as they are; any other it enables again, with the trap set.
  pub toggle-place :
      (s : Dbg P) (addr w : ℕ) (flags : Flags)
      → flags.syscall ≡ false
      → Holds k s addr w
      → (placed removed again : Dbg P) × (place_breakpoint addr flags s
          ≡ ok (length s.breakpoints + 1) placed)
        × (toggle_breakpoint (length s.breakpoints) placed ≡ ok tt removed)
        × (toggle_breakpoint (length s.breakpoints) removed ≡ ok tt again)
        × Holds k placed addr (high_bytes w + 0xcc)
        × Holds k removed addr w
        × (removed.breakpoints
            ≡ s.breakpoints
              ++ record (new_bp (length s.breakpoints + 1) flags addr w) { enabled = false } ∷ [])
        × (if flags.temp
            then again ≡ removed
            else (Holds k again addr (high_bytes w + 0xcc)
                × (again.breakpoints ≡ placed.breakpoints)))
  toggle-place s addr w flags plain e =
      let xs : List Bp = s.breakpoints in
      let n = length xs in
      let bp : Bp = new_bp (n + 1) flags addr w in
      let off : Bp = record bp { enabled = false } in
      let (p, placed, trap) = place_breakpoint-Holds s addr w flags plain e in
      let s1 : Dbg P = record s { process = p; breakpoints = xs ++ bp ∷ [] } in
      let (q, removed, back) =
        toggle_breakpoint-Holds s1 n (high_bytes w + 0xcc) bp (get_elem?-append_end xs bp)
          (inl refl) trap in
      let s2 : Dbg P = record s { process = q; breakpoints = xs ++ off ∷ [] } in
      let restored : Holds k s2 addr w =
        rw (high_bytes-add w 0xcc (omega arith), high_bytes-low_byte w) at back in
      elim (Bool-cases flags.temp) [
        | inl temp ↦ (
          s1,
          s2,
          s2,
          placed,
          rw (set-append_end xs bp off) at removed,
          toggle_breakpoint-temp s2 n off (get_elem?-append_end xs off) refl temp,
          trap,
          restored,
          refl,
          then_holds _ flags.temp temp refl,
        )
        | inr steady ↦
            let (r, again, trap') =
              toggle_breakpoint-Holds s2 n w off (get_elem?-append_end xs off) (inr steady)
                restored in
            (
              s1,
              s2,
              record s { process = r; breakpoints = xs ++ bp ∷ [] },
              placed,
              rw (set-append_end xs bp off) at removed,
              rw (set-append_end xs off bp) at again,
              trap,
              restored,
              refl,
              else_holds _ flags.temp steady (trap', refl),
            )
      ]
