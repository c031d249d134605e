-- ===== src/Cli/Argv/Boundary.antt =====
-- Where the argument list of src/cli/argv.ts can be cut: a token that no flag takes as its value
-- starts afresh, and behind `--` every token is a positional.
use Prim.Native.Char.{Char}
use Prim.Native.String.{String}
use text.Mathlib.Text.{◌==◌ as str_eq}
use next_loggers_ts.Prelude.{
  ◌⊎◌, ◌≡◌, refl, sym, ap, ◌∙◌, Bool, true, false, List, [], ◌∷◌, ◌++◌, Option, none, some, arith,
  inl, inr, if◌then◌else◌, append-nil, append_assoc,
}
use next_loggers_ts.Cli.Text.{split_equals, starts_dash, is_negative_number, tail}
use next_loggers_ts.Cli.Spec.{FlagType, FlagSpec, Tables, flags_in_scope}
use next_loggers_ts.Cli.Argv.{
  Runtime, State, ParseError, expects_value, letter_expects_value, accepts_separated_value,
  take_value, bare, found_long, by_long, long_flag, short_rest, by_short, short_flags, step, loop,
  is_bool, match_long, match_short,
}

-- No flag takes the token as a separate value.
abbrev pub IsBoundary : String → Type 0
IsBoundary y = (starts_dash y ≡ true) × (str_eq y "-" ≡ false) × (is_negative_number y ≡ false)

refused : (ty : FlagType) (y : String) → IsBoundary y → accepts_separated_value ty (some y) ≡ false
refused ty y b = ground arith

-- The turn of the loop is the one at the end of the arguments, and takes no token.
abbrev Alone : (State × Bool) → (State × Bool) → Type 0
Alone r e = (r ≡ e) × (e.1 ≡ false)

if_Alone :
    (b : Bool) {x y u v : State × Bool}
    → Alone x u
    → Alone y v
    → Alone (if b then x else y) (if b then u else v)
if_Alone true h k = h
if_Alone false h k = k

module _ (rt : Runtime) (y : String) (boundary : IsBoundary y) where
  take_value-Alone :
      (f : FlagSpec) (e : ParseError) (s : State)
      → Alone (take_value rt f e (some y) s) (take_value rt f e none s)
  take_value-Alone f e s = (rw (refused f.type y boundary), refl)

  bare-Alone :
      (f : FlagSpec) (e : ParseError) (s : State)
      → Alone (bare rt f e (some y) s) (bare rt f e none s)
  bare-Alone f e s = if_Alone (is_bool f.type) (refl, refl) (take_value-Alone f e s)

  found_long-Alone :
      (f : FlagSpec) (name : String) (v : Option String) (s : State)
      → Alone (found_long rt f name v (some y) s) (found_long rt f name v none s)
  found_long-Alone f name (some v) s = (refl, refl)
  found_long-Alone f name none s = bare-Alone f (expects_value name) s

  by_long-Alone :
      (m : Option FlagSpec) (scope : List FlagSpec) (name : String) (v : Option String) (s : State)
      → Alone (by_long rt m scope name v (some y) s) (by_long rt m scope name v none s)
  by_long-Alone (some f) scope name v s = found_long-Alone f name v s
  by_long-Alone none scope name v s = (refl, refl)

  short_rest-Alone :
      (scope : List FlagSpec) (f : FlagSpec) (c : Char) (rest : String) (s : State)
      → Alone (short_rest rt scope f c rest (some y) s) (short_rest rt scope f c rest none s)
  short_rest-Alone scope f c String.[] s = bare-Alone f (letter_expects_value c) s
  short_rest-Alone scope f c (String.◌∷◌ d rest) s = (refl, ground arith)

  by_short-Alone :
      (m : Option FlagSpec) (scope : List FlagSpec) (c : Char) (rest : String) (s : State)
      → Alone (by_short rt m scope c rest (some y) s) (by_short rt m scope c rest none s)
  by_short-Alone (some f) scope c rest s = short_rest-Alone scope f c rest s
  by_short-Alone none scope c rest s = (refl, refl)

  short_flags-Alone :
      (scope : List FlagSpec) (body : String) (s : State)
      → Alone (short_flags rt scope body (some y) s) (short_flags rt scope body none s)
  unfolding short_flags
  short_flags-Alone scope String.[] s = (refl, refl)
  short_flags-Alone scope (String.◌∷◌ c rest) s =
      by_short-Alone (match_short scope c) scope c rest s

  long_flag-Alone :
      (scope : List FlagSpec) (body : String) (s : State)
      → Alone (long_flag rt scope body (some y) s) (long_flag rt scope body none s)
  unfolding long_flag
  long_flag-Alone scope body s =
      let (name, v) = split_equals body in by_long-Alone (match_long scope name) scope name v s

  step-Alone :
      (t : Tables) (x : String) (s : State) → Alone (step rt t x (some y) s) (step rt t x none s)
  unfolding step
  step-Alone t x s = ground (
    arith,
    long_flag-Alone (flags_in_scope t s.command) (tail (tail x)) s,
    short_flags-Alone (flags_in_scope t s.command) (tail x) s,
  )

-- One turn, by whether the next token has been taken.
taken_cases : (r : State × Bool) → (r ≡ (r.0, true)) ⊎ (r ≡ (r.0, false))
taken_cases (s, true) = inl refl
taken_cases (s, false) = inr refl

module _ (rt : Runtime) (t : Tables) where
  -- The rest of the loop after a turn.
  abbrev resume : String → List String → State × Bool → State
  resume z rest (s, true) = loop rt t rest s
  resume z rest (s, false) = loop rt t (z ∷ rest) s

  loop_turn :
      (x z : String) (rest : List String) (s : State)
      → loop rt t (x ∷ z ∷ rest) s ≡ resume z rest (step rt t x (some z) s)
  unfolding loop
  loop_turn x z rest s = refl

  loop_taken :
      (x z : String) (rest : List String) (s s' : State)
      → step rt t x (some z) s ≡ (s', true)
      → loop rt t (x ∷ z ∷ rest) s ≡ loop rt t rest s'
  loop_taken x z rest s s' e = loop_turn x z rest s ∙ ap (resume z rest) e

  loop_left :
      (x z : String) (rest : List String) (s s' : State)
      → step rt t x (some z) s ≡ (s', false)
      → loop rt t (x ∷ z ∷ rest) s ≡ loop rt t (z ∷ rest) s'
  loop_left x z rest s s' e = loop_turn x z rest s ∙ ap (resume z rest) e

  loop_one : (x : String) (s : State) → loop rt t (x ∷ []) s ≡ (step rt t x none s).0
  unfolding loop
  loop_one x s = refl

  loop_nil : (s : State) → loop rt t [] s ≡ s
  unfolding loop
  loop_nil s = refl

  -- The arguments can be cut in front of a token that no flag takes as its value: what follows is
  -- parsed from the state that the arguments before it leave.
  pub loop-append :
      (y : String) (xs ys : List String) (s : State)
      → IsBoundary y
      → loop rt t (xs ++ y ∷ ys) s ≡ loop rt t (y ∷ ys) (loop rt t xs s)
  loop-append y [] ys s b = rw (loop_nil s)
  loop-append y (x ∷ []) ys s b =
      let (same, left) = step-Alone rt y b t x s in
      loop_left x y ys s (step rt t x none s).0 (same ∙ ap (λ k. ((step rt t x none s).0, k)) left)
      ∙ ap (loop rt t (y ∷ ys)) (sym (loop_one x s))
  loop-append y (x ∷ z ∷ xs) ys s b = elim (taken_cases (step rt t x (some z) s)) [
    | inl e ↦
        loop_taken x z (xs ++ y ∷ ys) s _ e
        ∙ loop-append y xs ys _ b
        ∙ ap (loop rt t (y ∷ ys)) (sym (loop_taken x z xs s _ e))
    | inr e ↦
        loop_left x z (xs ++ y ∷ ys) s _ e
        ∙ loop-append y (z ∷ xs) ys _ b
        ∙ ap (loop rt t (y ∷ ys)) (sym (loop_left x z xs s _ e))
  ]

  step-terminated :
      (x : String) (next : Option String) (s : State)
      → s.terminated ≡ true
      → step rt t x next s ≡ (record s { positionals = s.positionals ++ x ∷ [] }, false)
  unfolding step
  step-terminated x next s e = rw e

  loop-terminated :
      (xs : List String) (s : State)
      → s.terminated ≡ true
      → loop rt t xs s ≡ record s { positionals = s.positionals ++ xs }
  loop-terminated [] s e =
      loop_nil s ∙ ap (λ l. record s { positionals = l }) (sym (append-nil s.positionals))
  loop-terminated (x ∷ []) s e =
      loop_one x s ∙ ap (λ (r : State × Bool). r.0) (step-terminated x none s e)
  loop-terminated (x ∷ z ∷ xs) s e =
      loop_left x z xs s _ (step-terminated x (some z) s e)
      ∙ loop-terminated (z ∷ xs) (record s { positionals = s.positionals ++ x ∷ [] }) e
      ∙ ap (λ l. record s { positionals = l }) (append_assoc s.positionals (x ∷ []) (z ∷ xs))

  step_dashes :
      (next : Option String) (s : State)
      → s.terminated ≡ false
      → step rt t "--" next s ≡ (record s { terminated = true }, false)
  unfolding step
  step_dashes next s e = rw e

  loop_dashes :
      (ys : List String) (s : State)
      → s.terminated ≡ false
      → loop rt t ("--" ∷ ys) s ≡ record s { terminated = true; positionals = s.positionals ++ ys }
  loop_dashes [] s e =
      loop_one "--" s
      ∙ ap (λ (r : State × Bool). r.0) (step_dashes none s e)
      ∙ ap (λ l. record s { terminated = true; positionals = l }) (sym (append-nil s.positionals))
  loop_dashes (y ∷ ys) s e =
      loop_left "--" y ys s _ (step_dashes (some y) s e)
      ∙ loop-terminated (y ∷ ys) (record s { terminated = true }) refl

  -- Behind `--` nothing is a flag, a command or a value, whatever stands before it, unless an
  -- earlier `--` has ended the options: the tokens behind it are added to the positionals, and
  -- nothing else changes but that the options have ended.
  pub loop-terminator :
      (xs ys : List String) (s : State)
      → (loop rt t xs s).terminated ≡ false
      → loop rt t (xs ++ "--" ∷ ys) s ≡ record (loop rt t xs s) {
        terminated = true;
        positionals = (loop rt t xs s).positionals ++ ys;
      }
  loop-terminator xs ys s e =
      loop-append "--" xs ys s (refl, refl, refl) ∙ loop_dashes ys (loop rt t xs s) e
