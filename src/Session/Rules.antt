-- ===== src/Session/Rules.antt =====
-- Operations after which the session goes on as `Survives` says, whatever way they end, and the rules
-- for the ways in which such operations are put together.
use my_dbg.Base.{
  ℕ, zero, suc, ◌+◌, ◌-◌, ◌≡◌, refl, ◌∙◌, Bool, true, false, List, Option, none, some, ◌==◌, arith,
  if◌then◌else◌, Bool-cases, inl, inr, [], ◌∷◌,
}
use my_dbg.Debugger.{
  MyException, ex_code, Dbg, Line, Res, ok, thrown, exited, fault, out_of_fuel, M, pure, get,
  modify, print, and_then, ◌>>=◌, ◌>>◌,
}
use my_dbg.Debugger.Ends.{Ends, Keeps, within}
use my_dbg.Debugger.Exceptions.{throw, try_catch, dispatch, delete_env, new_env, catch_only}
use my_dbg.Debugger.Exceptions.Tries.{enter}
use my_dbg.Control.Runs.{Runs}
use my_dbg.Session.{Survives, Survives-refl, Survives-trans, Runs-Survives}

module _ {P A : Type 0} where
  -- How an operation ends from `s` on: it leaves behind the jump buffers of `s` and no others, unless
  -- the debugger exits.
  abbrev pub Lasts : Dbg P → Res P A → Type 0
  Lasts s (ok a t) = (t.envs ≡ s.envs) × Survives s t
  Lasts s (thrown e t) = (t.envs ≡ s.envs) × Survives s t
  Lasts s (exited t) = Survives s t
  Lasts s fault = Unit
  Lasts s out_of_fuel = Unit

  -- The same as a family, whose proofs are put together by rules
  pub data SafeFrom (s : Dbg P) (r : Res P A) : Type 0 where
    at : Lasts s r → SafeFrom s r

  pub data IsSafe (m : M P A) : Type 0 where
    safe : ((s : Dbg P) → SafeFrom s (m s)) → IsSafe m

  pub from : {m : M P A} → IsSafe m → (s : Dbg P) → SafeFrom s (m s)
  from (safe h) = h

  pub ends_at : {s : Dbg P} {r : Res P A} → SafeFrom s r → Lasts s r
  ends_at (at h) = h

  pub lasts : {m : M P A} → IsSafe m → (s : Dbg P) → Lasts s (m s)
  lasts h s = ends_at (from h s)

  -- From an earlier state on
  pub Lasts-back :
      (s t : Dbg P) (r : Res P A) → t.envs ≡ s.envs → Survives s t → Lasts t r → Lasts s r
  Lasts-back s t (ok a u) e h (f, l) = (f ∙ e, Survives-trans s t u h l)
  Lasts-back s t (thrown x u) e h (f, l) = (f ∙ e, Survives-trans s t u h l)
  Lasts-back s t (exited u) e h l = Survives-trans s t u h l
  Lasts-back s t fault e h l = tt
  Lasts-back s t out_of_fuel e h l = tt

module _ {P A B : Type 0} where
  Lasts-and_then :
      (s : Dbg P) (r : Res P A) (f : A → M P B)
      → Lasts s r
      → ((a : A) → IsSafe (f a))
      → Lasts s (and_then r f)
  Lasts-and_then s (ok a t) f (e, h) next = Lasts-back s t (f a t) e h (lasts (next a) t)
  Lasts-and_then s (thrown x t) f h next = h
  Lasts-and_then s (exited t) f h next = h
  Lasts-and_then s fault f h next = tt
  Lasts-and_then s out_of_fuel f h next = tt

  -- In sequence
  pub then_at :
      {s : Dbg P} {r : Res P A} {f : A → M P B}
      → SafeFrom s r
      → ((a : A) → IsSafe (f a))
      → SafeFrom s (and_then r f)
  then_at {s} h next = at (Lasts-and_then s _ _ (ends_at h) next)

  pub then_next :
      {m : M P A} {f : A → M P B} → IsSafe m → ((a : A) → IsSafe (f a)) → IsSafe (m >>= f)
  then_next h next = safe λ s. at (Lasts-and_then s _ _ (lasts h s) next)

module _ {P : Type 0} where
  -- By an argument
  pub branch :
      {A : Type 0} (b : Bool) {m n : M P A} → IsSafe m → IsSafe n → IsSafe (if b then m else n)
  branch true h g = h
  branch false h g = g

  pub branch_at :
      {A : Type 0} {s : Dbg P} (b : Bool) (m n : M P A)
      → SafeFrom s (m s)
      → SafeFrom s (n s)
      → SafeFrom s ((if b then m else n) s)
  branch_at true m n h g = h
  branch_at false m n h g = g

  pub choose :
      {A B : Type 0} (o : Option B) {m : M P A} {f : B → M P A}
      → IsSafe m
      → ((b : B) → IsSafe (f b))
      → IsSafe (elim o [ none ↦ m | some b ↦ f b ])
  choose none h g = h
  choose (some b) h g = g b

  -- By what the state tells
  pub if_at :
      {A : Type 0} {s : Dbg P} (b : Bool) {x y : Res P A}
      → SafeFrom s x
      → SafeFrom s y
      → SafeFrom s (if b then x else y)
  if_at true h g = h
  if_at false h g = g

  pub option_at :
      {A B : Type 0} {s : Dbg P} (o : Option B) {x : Res P A} {f : B → Res P A}
      → SafeFrom s x
      → ((b : B) → SafeFrom s (f b))
      → SafeFrom s (elim o [ none ↦ x | some b ↦ f b ])
  option_at none h g = h
  option_at (some b) h g = g b

  pub list_at :
      {A B : Type 0} {s : Dbg P} (xs : List B) {x : Res P A} {f : B → List B → Res P A}
      → SafeFrom s x
      → ((b : B) (bs : List B) → SafeFrom s (f b bs))
      → SafeFrom s (elim xs [ [] ↦ x | b ∷ bs ↦ f b bs ])
  list_at [] h g = h
  list_at (b ∷ bs) h g = g b bs

  pub Survives-same : (s : Dbg P) → (s.envs ≡ s.envs) × Survives s s
  Survives-same s = (refl, Survives-refl s)

  pub IsSafe-pure : {A : Type 0} (a : A) → IsSafe (pure {P = P} a)
  IsSafe-pure a = safe λ s. at (Survives-same s)

  pub IsSafe-fault : {A : Type 0} → IsSafe {P = P} {A = A} (λ s. fault)
  IsSafe-fault = safe λ s. at tt

  pub IsSafe-out_of_fuel : {A : Type 0} → IsSafe {P = P} {A = A} (λ s. out_of_fuel)
  IsSafe-out_of_fuel = safe λ s. at tt

  pub IsSafe-throw : {A : Type 0} (e : MyException) → IsSafe (throw {P = P} {A = A} e)
  unfolding throw
  IsSafe-throw e = safe λ s. elim (Bool-cases (s.envs == 0)) [
    | inl h ↦ rw h (at (Survives-refl s))
    | inr h ↦ rw h (at (Survives-same s))
  ]

  pub IsSafe-get : IsSafe (get {P = P})
  IsSafe-get = safe λ s. at (Survives-same s)

  pub IsSafe-print : (l : Line) → IsSafe (print {P = P} l)
  IsSafe-print l = safe λ s. at (
    refl,
    record {
      quit = (Survives-refl s).quit;
      table = (Survives-refl s).table;
      printed = (l ∷ [], refl);
    },
  )

  -- A change of the state that the session survives
  pub IsSafe-modify :
      (f : Dbg P → Dbg P)
      → ((s : Dbg P) → (f s).envs ≡ s.envs)
      → ((s : Dbg P) → Survives s (f s))
      → IsSafe (modify {P = P} f)
  IsSafe-modify f e h = safe λ s. at (e s, h s)

  -- What `Runs` allows
  pub IsSafe-Runs : {A : Type 0} {m : M P A} → Keeps Runs m → IsSafe m
  IsSafe-Runs {A} {m} h = safe λ s. at (ends s (m s) (within h s))
    where
      ends : (s : Dbg P) (r : Res P A) → Ends (λ _ t. Runs s t) (Runs s) r → Lasts s r
      ends s (ok a t) r = (r.envs, Runs-Survives s t r)
      ends s (thrown e t) r = (r.envs, Runs-Survives s t r)
      ends s (exited t) r = Runs-Survives s t r
      ends s fault r = tt
      ends s out_of_fuel r = tt

module _ {P A : Type 0} where
  -- The same without an exception
  abbrev pub Settles : Dbg P → Res P A → Type 0
  Settles s (ok a t) = (t.envs ≡ s.envs) × Survives s t
  Settles s (thrown e t) = ⊥
  Settles s (exited t) = Survives s t
  Settles s fault = Unit
  Settles s out_of_fuel = Unit

  pub Settles-Lasts : (s : Dbg P) (r : Res P A) → Settles s r → Lasts s r
  Settles-Lasts s (ok a t) h = h
  Settles-Lasts s (thrown e t) h = absurd h
  Settles-Lasts s (exited t) h = h
  Settles-Lasts s fault h = tt
  Settles-Lasts s out_of_fuel h = tt

  -- The `switch` behind `setjmp`
  dispatch-Settles :
      (n : ℕ) (handler : MyException → M P A) (s : Dbg P) (r : Res P A)
      → ((e : MyException) → IsSafe (handler e))
      → Lasts s r
      → Settles s (dispatch n handler r)
  unfolding dispatch
  dispatch-Settles zero handler s (thrown e t) h l = tt
  dispatch-Settles (suc n) handler s (thrown e t) h (d, l) =
      dispatch-Settles n handler s (handler e t) h
        (Lasts-back s t (handler e t) d l (lasts (h e) t))
  dispatch-Settles n handler s (ok a t) h l = l
  dispatch-Settles n handler s (exited t) h l = l
  dispatch-Settles n handler s fault h l = tt
  dispatch-Settles n handler s out_of_fuel h l = tt

  close :
      (s : Dbg P) (r : Res P A)
      → Settles (enter s) r
      → Settles s (and_then r λ a. delete_env >> pure a)
  unfolding delete_env
  close s (ok a t) (e, h) =
      let some_left : (t.envs == 0) ≡ false = ground (arith, e) in
      rw some_left
        (omega (arith, e), record { quit = h.quit; table = h.table; printed = h.printed })
  close s (thrown x t) l = absurd l
  close s (exited t) h = record { quit = h.quit; table = h.table; printed = h.printed }
  close s fault h = tt
  close s out_of_fuel h = tt

  -- A `try` ends every exception of its body.
  pub try_catch-Settles :
      {body : M P A} {handler : MyException → M P A}
      → IsSafe body
      → ((e : MyException) → IsSafe (handler e))
      → (s : Dbg P) → Settles s (try_catch body handler s)
  unfolding try_catch new_env
  try_catch-Settles {body} {handler} b h s =
      close s (dispatch 2 handler (body (enter s)))
        (dispatch-Settles 2 handler (enter s) (body (enter s)) h (lasts b (enter s)))

  pub IsSafe-try :
      {body : M P A} {handler : MyException → M P A}
      → IsSafe body
      → ((e : MyException) → IsSafe (handler e))
      → IsSafe (try_catch body handler)
  IsSafe-try b h = safe λ s. at (Settles-Lasts s _ (try_catch-Settles b h s))

  pub IsSafe-catch_only :
      (ex : MyException) {handler : M P A} (rest : A)
      → IsSafe handler
      → (e : MyException) → IsSafe (catch_only ex handler rest e)
  unfolding catch_only
  IsSafe-catch_only ex rest h e = branch (ex_code e == ex_code ex) h (IsSafe-pure rest)

module _ {P A : Type 0} where
  -- With a jump buffer more, which is taken off first
  pub reopen :
      {m : M P A} → IsSafe m → IsSafe (λ s. (delete_env >> m) (record s { envs = s.envs + 1 }))
  unfolding delete_env
  reopen {m} h = safe λ s.
      let some_left : (s.envs + 1 == 0) ≡ false = ground arith in
      let back : s.envs + 1 - 1 ≡ s.envs = omega arith in rw some_left (rw back (from h s))
