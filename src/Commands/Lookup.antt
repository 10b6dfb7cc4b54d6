-- ===== src/Commands/Lookup.antt =====
-- What `get_command` finds, and that it does not depend on the order of the table.
use my_dbg.Base.{
  ◌≡◌, ◌≢◌, refl, ap, sym, ◌∙◌, Bool, List, [], ◌∷◌, Option, none, some, Text, if◌then◌else◌,
  starts_with, Bool-cases, inl, inr,
}
use mathlib.Core.Path.{ap₂}
use mathlib.Core.List.{Permᴰ}
use mathlib.Core.List.Permᴰ.{nil, cons, swap, trans}
use my_dbg.Debugger.{Dbg, Line, M, pure, print, ◌>>◌}
use my_dbg.Commands.{
  Cmd, Matched, ambiguous, matched, is_called, exact_loop, prefix_loop, pick, get_command,
}

module _ {P : Type 0} where
  -- The union of two results: none, one command, or more.
  unfoldable pub join : Matched P → Matched P → Matched P
  join (matched none) m = m
  join (matched (some c)) (matched none) = matched (some c)
  join (matched (some c)) _ = ambiguous
  join ambiguous m = ambiguous

  -- How many commands pass a test, and which if it is one
  unfoldable pub tally : (Cmd P → Bool) → List (Cmd P) → Matched P
  unfolding join
  tally p [] = matched none
  tally p (c ∷ cs) = join (if p c then matched (some c) else matched none) (tally p cs)

  join-none : (m : Matched P) → join m (matched none) ≡ m
  unfolding join
  join-none ambiguous = refl
  join-none (matched none) = refl
  join-none (matched (some c)) = refl

  join_assoc : (a b c : Matched P) → join (join a b) c ≡ join a (join b c)
  unfolding join
  join_assoc ambiguous b c = refl
  join_assoc (matched none) b c = refl
  join_assoc (matched (some x)) ambiguous c = refl
  join_assoc (matched (some x)) (matched none) c = refl
  join_assoc (matched (some x)) (matched (some y)) ambiguous = refl
  join_assoc (matched (some x)) (matched (some y)) (matched none) = refl
  join_assoc (matched (some x)) (matched (some y)) (matched (some z)) = refl

  join_comm_left : (a b c : Matched P) → join a (join b c) ≡ join b (join a c)
  unfolding join
  join_comm_left ambiguous ambiguous c = refl
  join_comm_left ambiguous (matched none) c = refl
  join_comm_left ambiguous (matched (some y)) c = refl
  join_comm_left (matched none) b c = refl
  join_comm_left (matched (some x)) ambiguous c = refl
  join_comm_left (matched (some x)) (matched none) c = refl
  join_comm_left (matched (some x)) (matched (some y)) ambiguous = refl
  join_comm_left (matched (some x)) (matched (some y)) (matched none) = refl
  join_comm_left (matched (some x)) (matched (some y)) (matched (some z)) = refl

  -- The second loop counts the names that begin with the text.
  prefix_loop-tally :
      (name : Text) (found : Option (Cmd P)) (cmds : List (Cmd P))
      → prefix_loop name found cmds
        ≡ join (matched found) (tally (λ c. starts_with c.name name) cmds)
  unfolding prefix_loop tally
  prefix_loop-tally name found [] = sym (join-none (matched found))
  prefix_loop-tally name none (c ∷ cs) = elim (Bool-cases (starts_with c.name name)) [
    | inl h ↦ rw h (prefix_loop-tally name (some c) cs)
    | inr h ↦ rw h (prefix_loop-tally name none cs)
  ]
  prefix_loop-tally name (some x) (c ∷ cs) = elim (Bool-cases (starts_with c.name name)) [
    | inl h ↦
        rw h (
          join_assoc (matched (some x)) (matched (some c))
            (tally (λ d. starts_with d.name name) cs))
    | inr h ↦ rw h (prefix_loop-tally name (some x) cs)
  ]

  join-ne-ambiguous :
      (c : Cmd P) (m : Matched P) → join (matched (some c)) m ≢ ambiguous → m ≡ matched none
  unfolding join
  join-ne-ambiguous c ambiguous h = absurd (h refl)
  join-ne-ambiguous c (matched none) h = refl
  join-ne-ambiguous c (matched (some d)) h = absurd (h refl)

  -- Where at most one command has the name, the first loop finds it wherever it stands.
  exact_loop-tally :
      (name : Text) (cmds : List (Cmd P))
      → tally (is_called name) cmds ≢ ambiguous
      → matched (exact_loop name cmds) ≡ tally (is_called name) cmds
  unfolding exact_loop tally
  exact_loop-tally name [] h = refl
  exact_loop-tally name (c ∷ cs) h = elim (Bool-cases (is_called name c)) [
    | inl e ↦
        let rest : tally (is_called name) cs ≡ matched none =
          join-ne-ambiguous c (tally (is_called name) cs) (rw e at h) in
        rw e (rw rest)
    | inr e ↦ rw e (exact_loop-tally name cs (rw e at h))
  ]

  pub tally-perm :
      (p : Cmd P → Bool) {as' bs : List (Cmd P)} → Permᴰ as' bs → tally p as' ≡ tally p bs
  unfolding tally
  tally-perm p nil = refl
  tally-perm p (cons {a} {b} e d) =
      ap₂ (λ (x : Cmd P) m. join (if p x then matched (some x) else matched none) m) e
        (tally-perm p d)
  tally-perm p (swap {a} {b} {l} e f) =
      join_comm_left (one p a) (one p b) (tally p l)
      ∙ ap₂ (λ (x y : Cmd P). join (one p x) (join (one p y) (tally p l))) f e
    where
      one : (Cmd P → Bool) → Cmd P → Matched P
      one q x = if q x then matched (some x) else matched none
  tally-perm p (trans d e) = tally-perm p d ∙ tally-perm p e

  -- The answer of `get_command`, from the counts alone
  unfoldable pub answer : (Matched P) → (Matched P) → Text → M P (Option (Cmd P))
  answer (matched (some cmd)) pre name = pure (some cmd)
  answer ambiguous pre name = pure none
  answer (matched none) ambiguous name = print (Line.ambiguous_command name) >> pure none
  answer (matched none) (matched (some cmd)) name = pure (some cmd)
  answer (matched none) (matched none) name = print (Line.command_not_found name) >> pure none

  matched_inj : {a b : Option (Cmd P)} → matched a ≡ matched b → a ≡ b
  matched_inj e = cc

  pick-answer :
      (e : Option (Cmd P)) (m : Matched P) (name : Text) → pick e m name ≡ answer (matched e) m name
  unfolding pick answer
  pick-answer (some cmd) m name = refl
  pick-answer none ambiguous name = refl
  pick-answer none (matched (some cmd)) name = refl
  pick-answer none (matched none) name = refl

  -- A command that has the text for its name or alias wins over all abbreviations. Without one, the
  -- text must begin the name of exactly one command: with none and with several, `get_command`
  -- prints which of the two it is and returns NULL.
  pub get_command-answer :
      (cmds : List (Cmd P)) (name : Text) (s : Dbg P)
      → tally (is_called name) cmds ≢ ambiguous
      → get_command cmds name s
        ≡ answer (tally (is_called name) cmds) (tally (λ c. starts_with c.name name) cmds) name s
  unfolding get_command join
  get_command-answer cmds name s h =
      let pre : Matched P = tally (λ c. starts_with c.name name) cmds in
      let loop : prefix_loop name none cmds ≡ pre = prefix_loop-tally name none cmds in
      ap (λ m. pick (exact_loop name cmds) m name s) loop
      ∙ ap (λ (f : M P (Option (Cmd P))). f s) (pick-answer (exact_loop name cmds) pre name)
      ∙ ap (λ e. answer e pre name s) (exact_loop-tally name cmds h)

  -- The linker may lay the table out in any order: where at most one command has the text for its
  -- name or alias, every order gives the same command and the same messages.
  pub get_command-perm :
      (cmds others : List (Cmd P)) (name : Text) (s : Dbg P)
      → Permᴰ cmds others
      → tally (is_called name) cmds ≢ ambiguous
      → get_command others name s ≡ get_command cmds name s
  get_command-perm cmds others name s d h =
      let exact = tally-perm (is_called name) d in
      let pre = tally-perm (λ (c : Cmd P). starts_with c.name name) d in
      get_command-answer others name s (λ e. h (exact ∙ e))
      ∙ sym (ap₂ (λ a b. answer a b name s) exact pre)
      ∙ sym (get_command-answer cmds name s h)
