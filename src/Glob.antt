-- ===== src/Glob.antt =====
-- The pattern matcher of device names, drmemd/src/backends/simple/glob.rs.
pub mod Spec
pub mod Search
pub mod Grammar
pub mod Meaning
use drmem.Base.{ℕ, zero, suc, Bool, true, false, ◌||◌, Option, none, some, List, [], ◌∷◌, ◌==◌}
use drmem.Base.{if◌then◌else◌}

-- The characters that an iterator has not yet yielded. A fused iterator stays at its end.
abbrev pub Chars : Type 0
Chars = List ℕ

-- The characters that have a meaning of their own in a pattern.
abbrev pub any_one : ℕ
any_one = b'?'

abbrev pub any_run : ℕ
any_run = b'*'

abbrev pub next : Chars → Option ℕ × Chars
next [] = (none, [])
next (c ∷ cs) = (some c, cs)

pub record Fsm : Type 0 where
  pub stack : List (Chars × Chars)
  pub it_pat : Chars
  pub it_name : Chars
  pub ch_pat : Option ℕ
  pub ch_name : Option ℕ

abbrev pub new : Chars → Chars → Fsm
new pat name = record { stack = []; it_pat = pat; it_name = name; ch_pat = none; ch_name = none }

abbrev pub next_pat_char : Fsm → Fsm
next_pat_char m = record m { ch_pat = (next m.it_pat).0; it_pat = (next m.it_pat).1 }

abbrev pub next_name_char : Fsm → Fsm
next_name_char m = record m { ch_name = (next m.it_name).0; it_name = (next m.it_name).1 }

abbrev pub save : Fsm → Fsm
save m = record m { stack = (m.it_pat, m.it_name) ∷ m.stack }

-- A method that returns `Option<bool>` returns the machine with it.
abbrev pub Stepped : Type 0
Stepped = Fsm × Option Bool

abbrev resume : Fsm → List (Chars × Chars) → Stepped
resume m [] = (m, some false)
resume m ((p, n) ∷ rest) =
    (next_name_char (next_pat_char (record m { stack = rest; it_pat = p; it_name = n })), none)

unfoldable pub backtrace : Fsm → Stepped
backtrace m = resume m m.stack

abbrev is_wildcard : Option ℕ → Bool
is_wildcard none = false
is_wildcard (some c) = c == any_one || c == any_run

abbrev is_none : Option ℕ → Bool
is_none none = true
is_none (some c) = false

abbrev same : Option ℕ → Option ℕ → Bool
same none none = true
same (some a) (some b) = a == b
same _ _ = false

-- How a loop inside `step` ends: it falls through, or `step` returns from within it.
pub data Flow : Type 0 where
  onward : Fsm → Flow
  leave : Stepped → Flow

-- The first `while` of `step`. Each round takes a character off `it_pat`, which is handed over so
-- that the recursion is structural: the caller passes `m.it_pat`.
unfoldable pub skip_wildcards : Chars → Fsm → Flow
unfolding backtrace
skip_wildcards [] m = if is_wildcard m.ch_pat then leave (next_pat_char m, some true) else onward m
skip_wildcards (x ∷ p) m =
    let m' = next_pat_char m in
    let plain = skip_wildcards p m' in
    let eaten = skip_wildcards p (next_name_char m') in
    if is_wildcard m.ch_pat
    then (if x == any_one
        then (if is_none m'.ch_name then leave (backtrace m') else eaten)
        else plain)
    else onward m

abbrev save_if_same : Fsm → Fsm
save_if_same m = if same m.ch_name m.ch_pat then save m else m

-- The second `while` of `step`, over `m.it_name`.
unfoldable pub save_matches : Chars → Fsm → Fsm
save_matches [] m = if is_none m.ch_name then m else next_name_char (save_if_same m)
save_matches (c ∷ n) m =
    let rest = save_matches n (next_name_char (save_if_same m)) in
    if is_none m.ch_name then m else rest

-- What follows the first loop.
unfoldable pub then_search : Flow → Stepped
unfolding save_matches backtrace
then_search (onward m) = backtrace (save_matches m.it_name m)
then_search (leave r) = r

unfoldable pub match_chars : Fsm → Option ℕ → Option ℕ → Stepped
unfolding then_search skip_wildcards backtrace
match_chars m none none = (m, some true)
match_chars m none (some b) = backtrace m
match_chars m (some a) none = if a == any_run then (m, some true) else backtrace m
match_chars m (some a) (some b) =
    if a == any_one
    then (next_name_char (next_pat_char m), none)
    else if a == any_run
    then then_search (skip_wildcards m.it_pat m)
    else if a == b
    then (next_name_char (next_pat_char m), none)
    else backtrace m

unfoldable pub step : Fsm → Stepped
unfolding match_chars
step m = match_chars m m.ch_pat m.ch_name

-- The endless `loop` of `process`, on fuel: `none` means that the fuel ran out.
unfoldable pub process_loop : ℕ → Fsm → Option Bool
process_loop zero m = none
process_loop (suc fuel) m = elim (step m).1 [
  | some b ↦ some b
  | none ↦ process_loop fuel (step m).0
]

unfoldable pub process : ℕ → Fsm → Option Bool
unfolding process_loop
process fuel m = process_loop fuel (next_name_char (next_pat_char m))

-- `Pattern::create(pat).matches(name)`.
unfoldable pub matches : ℕ → Chars → Chars → Option Bool
unfolding process
matches fuel pat name = process fuel (new pat name)
