-- ===== src/Archive/Chunks.antt =====
-- adpulse/archive_index.py, `chunks`: the lines of a stream that is read in blocks. A byte is a
-- number, and a stream is the list of the blocks that its reads answer, without the last, empty one.
pub mod Lines
use ad_pulse.Prelude.{
  ℕ, zero, suc, ◌+◌, ◌-◌, String, Bool, true, false, List, [], ◌∷◌, ◌++◌, Option, none, some,
  if◌then◌else◌, ◌==◌, nat_eq, ltb, length, Result, ok, raise, value_error,
}

abbrev pub Bytes : Type 0
Bytes = List ℕ

-- What a generator has yielded, and how it ended.
pub record Yielded (A : Type 0) : Type 0 where
  pub pieces : List Bytes
  pub outcome : Result A

-- The bytes before the first line feed and those after it, if there is one: `buffer.find(b"\n")`,
-- and what `buffer[:end]` and `buffer[end + 1:]` are then.
unfoldable pub split_line : Bytes → Option (Bytes × Bytes)
split_line [] = none
split_line (x ∷ b) =
    let rest = split_line b in
    if x == 10 then some ([], b) else elim rest [ none ↦ none | some (l, r) ↦ some (x ∷ l, r) ]

-- The piece and then those of the rest.
abbrev pub yield_then : {A : Type 0} → Bytes → Yielded A → Yielded A
yield_then piece y = record y { pieces = piece ∷ y.pieces }

abbrev pub fails : {A : Type 0} → String → Yielded A
fails message = record { pieces = []; outcome = raise (value_error message) }

module _ (max_line max_bytes : ℕ) where
  -- The inner loop, on fuel; it answers what is left of the buffer.
  unfoldable pub drain : ℕ → Bytes → Yielded Bytes
  unfolding split_line
  drain zero buffer = record { pieces = []; outcome = ok buffer }
  drain (suc fuel) buffer = elim (split_line buffer) [
    | none ↦ record { pieces = []; outcome = ok buffer }
    | some (line, rest) ↦
        let more = drain fuel rest in
        if ltb max_line (length line)
        then fails "Archive line exceeds byte budget"
        else yield_then (line ++ 10 ∷ []) more
  ]

  -- `if buffer: yield bytes(buffer)`
  unfoldable pub last_piece : Bytes → Yielded (Unit {0})
  last_piece [] = record { pieces = []; outcome = ok tt }
  last_piece (x ∷ b) = record { pieces = (x ∷ b) ∷ []; outcome = ok tt }

  -- The pieces of `y`, and after a normal end those of the rest of the run.
  unfoldable pub and_then : Yielded Bytes → (Bytes → Yielded (Unit {0})) → Yielded (Unit {0})
  and_then y k = elim y.outcome [
    | raise e ↦ record { pieces = y.pieces; outcome = raise e }
    | ok rest ↦ record { pieces = y.pieces ++ (k rest).pieces; outcome = (k rest).outcome }
  ]

  -- The outer loop.
  unfoldable pub read_blocks : List Bytes → ℕ → Bytes → Yielded (Unit {0})
  unfolding drain last_piece and_then
  read_blocks [] total buffer = last_piece buffer
  read_blocks (block ∷ l) total buffer =
      if ltb max_bytes (total + length block)
      then fails "Archive object exceeds byte budget"
      else and_then (drain (length (buffer ++ block)) (buffer ++ block)) (λ rest.
        let more = read_blocks l (total + length block) rest in
        if ltb max_line (length rest) then fails "Archive line exceeds byte budget" else more)

  unfoldable pub chunks : List Bytes → Yielded (Unit {0})
  unfolding read_blocks
  chunks blocks = read_blocks blocks 0 []
