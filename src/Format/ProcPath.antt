-- ===== src/Format/ProcPath.antt =====
-- `get_proc_path` throws nothing.
use my_dbg.Base.{
  ℕ, ◌+◌, ◌^◌, ◌<◌, ◌≡◌, refl, false, ◌∷◌, ◌++◌, Text, codes, arith, ltb, leb, length,
  length-append, Bool-cases, inl, inr,
}
use my_dbg.Debugger.{Dbg, ok}
use my_dbg.Printing.{print_d}
use my_dbg.Format.{get_proc_path}
use my_dbg.Format.Digits.{digits-pos}

length-print_d : (w : ℕ) → 0 < length (print_d w)
unfolding print_d
length-print_d w = elim (Bool-cases (ltb w (2 ^ 31))) [
  | inl small ↦ rw small (digits-pos 9 10 w)
  | inr negative ↦ rw negative (omega arith)
]

-- For every process and name `get_proc_path` returns the name of the file below /proc.
pub get_proc_path_lem :
    {P : Type 0} (name : Text) (s : Dbg P)
    → get_proc_path name s ≡ ok (codes "/proc/" ++ (print_d s.pid ++ b'/' ∷ name)) s
unfolding get_proc_path
get_proc_path_lem name s =
    let long : leb (length (codes "/proc/" ++ (print_d s.pid ++ b'/' ∷ name))) (7 + length name)
        ≡ false =
      ground (arith, length-print_d s.pid, length-append (print_d s.pid) (b'/' ∷ name)) in
    rw long refl
