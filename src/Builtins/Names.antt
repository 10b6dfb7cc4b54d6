-- ===== src/Builtins/Names.antt =====
-- The names of the commands.
use mathlib.Core.List.{Permᴰ}
use my_dbg.Base.{
  ◌≡◌, refl, sym, ap, ◌∙◌, List, [], ◌∷◌, Option, none, some, Text, All, str_eq, starts_with,
}
use my_dbg.Debugger.{Kernel, Dbg, ok}
use my_dbg.Memory.{Memory}
use my_dbg.Capstone.{Capstone}
use my_dbg.MemMappings.{Maps}
use my_dbg.Unwind.{Unwind}
use my_dbg.Elf.Tracee.{Files}
use my_dbg.Dwarf.Sources.{Sources}
use my_dbg.Commands.{Cmd, matched, is_called, get_command}
use my_dbg.Commands.Lookup.{tally, join, answer, tally-perm, get_command-answer}
use my_dbg.Builtins.{
  Bounds, register_command, register_command_with_alias, help_command, place_commands, run_commands,
  info_commands, commands,
}

-- The alias, where there is one
abbrev pub OnAlias : (Text → Type 0) → Option Text → Type 0
OnAlias Q none = Unit {0}
OnAlias Q (some a) = Q a

module _ {P : Type 0} where
  -- No other command has the name or the alias.
  abbrev IsAlone : List (Cmd P) → Cmd P → Type 0
  IsAlone cmds c =
      (tally (is_called c.name) cmds ≡ matched (some c))
      × OnAlias (λ a. tally (is_called a) cmds ≡ matched (some c)) c.alias

  -- The command is found by its name and by its alias.
  abbrev pub IsReached : List (Cmd P) → Cmd P → Type 0
  IsReached table c =
      ((s : Dbg P) → get_command table c.name s ≡ ok (some c) s)
      × OnAlias (λ a. (s : Dbg P) → get_command table a s ≡ ok (some c) s) c.alias

  found_by :
      (cmds table : List (Cmd P)) (name : Text) (c : Cmd P)
      → Permᴰ cmds table
      → tally (is_called name) cmds ≡ matched (some c)
      → (s : Dbg P) → get_command table name s ≡ ok (some c) s
  unfolding answer
  found_by cmds table name c d e s =
      let there : tally (is_called name) table ≡ matched (some c) =
        sym (tally-perm (is_called name) d) ∙ e in
      get_command-answer table name s (λ f. cc (sym there ∙ f))
      ∙ ap (λ m. answer m (tally (λ x. starts_with x.name name) table) name s) there

  IsAlone-IsReached :
      (cmds table : List (Cmd P)) (c : Cmd P)
      → Permᴰ cmds table
      → IsAlone cmds c
      → IsReached table c
  IsAlone-IsReached cmds table c d (by_name, by_alias) =
      (found_by cmds table c.name c d by_name, on_alias c.alias by_alias)
    where
      on_alias :
          (alias : Option Text)
          → OnAlias (λ a. tally (is_called a) cmds ≡ matched (some c)) alias
          → OnAlias (λ a. (s : Dbg P) → get_command table a s ≡ ok (some c) s) alias
      on_alias none h = tt
      on_alias (some a) h = found_by cmds table a c d h

  IsAlone-All :
      (cmds table rest : List (Cmd P))
      → Permᴰ cmds table
      → All (IsAlone cmds) rest
      → All (IsReached table) rest
  IsAlone-All cmds table [] d h = tt
  IsAlone-All cmds table (c ∷ cs) d (hc, hs) =
      (IsAlone-IsReached cmds table c d hc, IsAlone-All cmds table cs d hs)

module _ {P C : Type 0} ⦃k : Kernel P⦄ ⦃mem : Memory P⦄ ⦃files : Files P⦄ ⦃maps : Maps P⦄
    ⦃src : Sources P⦄ (unw : Unwind P C) (cs : Capstone) (bounds : Bounds) where
  alone :
      (listed : List (Cmd P))
      → All (IsAlone (commands unw cs bounds listed)) (commands unw cs bounds listed)
  unfolding commands help_command place_commands run_commands info_commands register_command
      register_command_with_alias tally join is_called str_eq
  alone listed = (
    (refl, tt),
    (
      (refl, refl),
      (
        (refl, tt),
        (
          (refl, refl),
          (
            (refl, refl),
            (
              (refl, refl),
              (
                (refl, tt),
                (
                  (refl, tt),
                  (
                    (refl, tt),
                    (
                      (refl, tt),
                      (
                        (refl, tt),
                        (
                          (refl, tt),
                          (
                            (refl, tt),
                            (
                              (refl, tt),
                              (
                                (refl, refl),
                                (
                                  (refl, tt),
                                  ((refl, tt), ((refl, tt), ((refl, tt), ((refl, tt), tt)))),
                                ),
                              ),
                            ),
                          ),
                        ),
                      ),
                    ),
                  ),
                ),
              ),
            ),
          ),
        ),
      ),
    ),
  )

  -- Whatever order the linker lays the table out in, `get_command` finds each of the 20 commands by its
  -- name, and by its alias where it has one.
  pub commands-IsReached :
      (listed table : List (Cmd P))
      → Permᴰ (commands unw cs bounds listed) table
      → All (IsReached table) (commands unw cs bounds listed)
  commands-IsReached listed table d =
      IsAlone-All (commands unw cs bounds listed) table (commands unw cs bounds listed) d
        (alone listed)
