-- ===== src/Archive/Chunks/Lines.antt =====
-- The pieces that `chunks` yields.
use mathlib.Core.Path.{subst}
use ad_pulse.Prelude.{
  ℕ, zero, suc, ◌+◌, ◌≤◌, ◌<◌, ◌≡◌, ◌≢◌, refl, sym, ap, ◌∙◌, List, [], ◌∷◌, ◌++◌, Option, none,
  some, inl, inr, arith, nat_eq, ltb, if◌then◌else◌, ◌==◌, Bool-cases, Option-cases, All, OnOk,
  Result, ok, raise, String, length, length-append,
}
use ad_pulse.Archive.Chunks.{
  Bytes, Yielded, split_line, yield_then, fails, drain, last_piece, and_then, read_blocks, chunks,
}

-- The blocks of a list, one after the other.
abbrev pub flatten : List Bytes → Bytes
flatten [] = []
flatten (p ∷ l) = p ++ flatten l

-- No line feed.
abbrev pub IsLine : Bytes → Type 0
IsLine b = All (λ x. x ≢ 10) b

-- A line of at most `max_line` bytes with its line feed.
abbrev pub IsWhole : ℕ → Bytes → Type 0
IsWhole max_line piece =
    (line : Bytes) × IsLine line × (length line ≤ max_line) × (piece ≡ line ++ 10 ∷ [])

-- What the bytes after the last line feed add to the pieces: nothing, if there are none.
abbrev pub unless_empty : Bytes → List Bytes
unless_empty [] = []
unless_empty (x ∷ b) = (x ∷ b) ∷ []

-- A run that raises has yielded no line without its line feed.
abbrev pub IsCut : Bytes → Result (Unit {0}) → Type 0
IsCut rest (ok _) = Unit
IsCut rest (raise e) = rest ≡ []

-- The pieces are lines with their line feeds, and after them, only at the end of the stream, what is
-- left without one.
abbrev pub AreLines : ℕ → Yielded (Unit {0}) → Type 0
AreLines max_line y =
    (whole : List Bytes) × (rest : Bytes) × All (IsWhole max_line) whole
    × IsLine rest
    × (length rest ≤ max_line)
    × (y.pieces ≡ whole ++ unless_empty rest)
    × IsCut rest y.outcome

split_none : (b : Bytes) → split_line b ≡ none → IsLine b
unfolding split_line
split_none [] e = tt
split_none (x ∷ b) e = ((ground arith), split_none b (ground arith))

-- What a line feed splits a buffer into.
abbrev IsSplit : Bytes → Option (Bytes × Bytes) → Type 0
IsSplit b none = Unit
IsSplit b (some (l, r)) = (b ≡ l ++ 10 ∷ r) × IsLine l × (length r < length b)

IsSplit-cons :
    (x : ℕ) (b : Bytes) (s : Option (Bytes × Bytes))
    → x ≢ 10
    → IsSplit b s
    → IsSplit (x ∷ b) (elim s [ none ↦ none | some (l, r) ↦ some (x ∷ l, r) ])
IsSplit-cons x b none n h = tt
IsSplit-cons x b (some (l, r)) n (e, h, lt) = (ap (λ t. x ∷ t) e, (n, h), omega arith)

split_line-IsSplit : (b : Bytes) → IsSplit b (split_line b)
unfolding split_line
split_line-IsSplit [] = tt
split_line-IsSplit (x ∷ b) = elim (Bool-cases (x == 10)) [
  | inl y ↦ rw y (ap (λ t. t ∷ b) (ground arith), tt, omega arith)
  | inr n ↦ rw n (IsSplit-cons x b (split_line b) (ground arith) (split_line-IsSplit b))
]

OnOk-map :
    {A : Type 0} (P Q : A → Type 0) (r : Result A) → ((a : A) → P a → Q a) → OnOk P r → OnOk Q r
OnOk-map P Q (ok a) f h = f a h
OnOk-map P Q (raise x) f h = tt

append_assoc : (a b c : Bytes) → (a ++ b) ++ c ≡ a ++ (b ++ c)
append_assoc [] b c = refl
append_assoc (x ∷ a) b c = ap (λ t. x ∷ t) (append_assoc a b c)

-- The pieces and the rest make up the buffer, and the rest has no line feed.
abbrev Drained : ℕ → Bytes → Yielded Bytes → Type 0
Drained max_line b y =
    All (IsWhole max_line) y.pieces
    × OnOk (λ rest. (flatten y.pieces ++ rest ≡ b) × IsLine rest) y.outcome

module _ (max_line max_bytes : ℕ) where
  Drained-cons :
      (b line rest : Bytes) (p : List Bytes) (outcome : Result Bytes)
      → b ≡ line ++ 10 ∷ rest
      → IsLine line
      → length line ≤ max_line
      → Drained max_line rest (record { pieces = p; outcome = outcome })
      → Drained max_line b (yield_then (line ++ 10 ∷ []) (record { pieces = p; outcome = outcome }))
  Drained-cons b line rest p (ok left) e h n (all, (q, k)) = (
    ((line, h, n, refl), all),
    (
      append_assoc (line ++ 10 ∷ []) (flatten p) left
          ∙ append_assoc line (10 ∷ []) (flatten p ++ left)
          ∙ ap (λ t. line ++ 10 ∷ t) q
          ∙ sym e,
      k,
    ),
  )
  Drained-cons b line rest p (raise x) e h n (all, q) = (((line, h, n, refl), all), tt)

  drain-Drained :
      (fuel : ℕ) (b : Bytes)
      → length b ≤ fuel
      → Drained max_line b (drain max_line max_bytes fuel b)
  unfolding drain
  drain-Drained zero [] n = (tt, (refl, tt))
  drain-Drained zero (x ∷ b) n = absurd (omega arith)
  drain-Drained (suc fuel) b n = elim (Option-cases (split_line b)) [
    | inl e ↦ rw (e, drain) (tt, (refl, split_none b e))
    | inr ((line, rest), e) ↦
        let (q, h, lt) = subst (IsSplit b) e (split_line-IsSplit b) in
        elim (Bool-cases (ltb max_line (length line))) [
          | inl long ↦ rw (e, drain, long) (tt, tt)
          | inr short ↦
              rw (e, drain, short)
                (Drained-cons b line rest (drain max_line max_bytes fuel rest).pieces
                  (drain max_line max_bytes fuel rest).outcome q h (ground arith)
                  (drain-Drained fuel rest (omega arith)))
        ]
  ]

  flatten-append : (p q : List Bytes) → flatten (p ++ q) ≡ flatten p ++ flatten q
  flatten-append [] q = refl
  flatten-append (x ∷ p) q =
      ap (λ t. x ++ t) (flatten-append p q) ∙ sym (append_assoc x (flatten p) (flatten q))

  All-append : (P : Bytes → Type 0) (p q : List Bytes) → All P p → All P q → All P (p ++ q)
  All-append P [] q h k = k
  All-append P (x ∷ p) q h k = (h.0, All-append P p q h.1 k)

  append_nil : (l : List Bytes) → l ++ [] ≡ l
  append_nil [] = refl
  append_nil (x ∷ l) = ap (λ r. x ∷ r) (append_nil l)

  pieces_assoc : (a b c : List Bytes) → (a ++ b) ++ c ≡ a ++ (b ++ c)
  pieces_assoc [] b c = refl
  pieces_assoc (x ∷ a) b c = ap (λ t. x ∷ t) (pieces_assoc a b c)

  -- A failure before anything is yielded
  fails-AreLines : (message : String) → AreLines max_line (fails message)
  fails-AreLines message = ([], [], tt, tt, omega arith, refl, refl)

  -- All pieces are lines, and at a normal end they make up the bytes, which are within the budget.
  abbrev Complete : ℕ → Bytes → Yielded (Unit {0}) → Type 0
  Complete total bytes y =
      AreLines max_line y × OnOk (λ _. (flatten y.pieces ≡ bytes) × (total ≤ max_bytes)) y.outcome

  Complete-and_then :
      (total : ℕ) (b more : Bytes) (p : List Bytes) (outcome : Result Bytes)
      (k : Bytes → Yielded (Unit {0}))
      → Drained max_line b (record { pieces = p; outcome = outcome })
      → ((rest : Bytes) → IsLine rest → Complete total (rest ++ more) (k rest))
      → Complete total
          (b ++ more)
          (and_then max_line max_bytes (record { pieces = p; outcome = outcome }) k)
  unfolding and_then
  Complete-and_then total b more p (raise x) k (all, _) h =
      ((p, [], all, tt, omega arith, sym (append_nil p), refl), tt)
  Complete-and_then total b more p (ok rest) k (all, (q, line)) h =
      let ((whole, last, wholes, is_line, short, pieces, cut), end) = h rest line in
      (
        (
          p ++ whole,
          last,
          All-append (IsWhole max_line) p whole all wholes,
          is_line,
          short,
          ap (λ r. p ++ r) pieces ∙ sym (pieces_assoc p whole (unless_empty last)),
          cut,
        ),
        OnOk-map (λ (_ : Unit {0}). (flatten (k rest).pieces ≡ rest ++ more) × (total ≤ max_bytes))
            _ (k rest).outcome
            (λ _ (q', t). (
              flatten-append p (k rest).pieces
                  ∙ ap (λ r. flatten p ++ r) q'
                  ∙ sym (append_assoc (flatten p) rest more)
                  ∙ ap (λ r. r ++ more) q,
              t,
            ))
            end,
      )

  read_blocks-Complete :
      (blocks : List Bytes) (total : ℕ) (buffer : Bytes)
      → IsLine buffer
      → length buffer ≤ max_line
      → total ≤ max_bytes
      → Complete
          (total + length (flatten blocks))
          (buffer ++ flatten blocks)
          (read_blocks max_line max_bytes blocks total buffer)
  unfolding read_blocks last_piece
  read_blocks-Complete [] total [] h n t =
      (([], [], tt, tt, omega arith, refl, tt), (refl, omega arith))
  read_blocks-Complete [] total (x ∷ b) h n t =
      (([], x ∷ b, tt, h, n, refl, tt), (refl, omega arith))
  read_blocks-Complete (block ∷ l) total buffer h n t =
      let k : Bytes → Yielded (Unit {0}) = λ rest.
        if ltb max_line (length rest)
        then fails "Archive line exceeds byte budget"
        else read_blocks max_line max_bytes l (total + length block) rest in
      let y : Yielded Bytes =
        drain max_line max_bytes (length (buffer ++ block)) (buffer ++ block) in
      elim (Bool-cases (ltb max_bytes (total + length block))) [
        | inl over ↦ rw over (fails-AreLines "Archive object exceeds byte budget", tt)
        | inr within ↦ rw within (
            subst
              (λ b.
                Complete (total + length (block ++ flatten l)) b (and_then max_line max_bytes y k))
              (append_assoc buffer block (flatten l))
              (Complete-and_then (total + length (block ++ flatten l)) (buffer ++ block) (flatten l)
                y.pieces y.outcome k
                (drain-Drained (length (buffer ++ block)) (buffer ++ block) (omega arith))
                (λ rest line. elim (Bool-cases (ltb max_line (length rest))) [
                  | inl long ↦ rw long (fails-AreLines "Archive line exceeds byte budget", tt)
                  | inr short ↦ rw short (
                      subst
                        (λ m.
                          Complete m (rest ++ flatten l)
                            (read_blocks max_line max_bytes l (total + length block) rest))
                        (omega (arith, length-append block (flatten l)))
                        (read_blocks-Complete l (total + length block) rest line (ground arith)
                          (ground arith)))
                ])))
      ]

  -- At a normal end the pieces make up the bytes of the stream, which are within the budget; and on
  -- every path, the pieces are whole lines of at most `max_line` bytes with their line feeds, after
  -- which a run that ends normally, and no other, yields the bytes after the last line feed, if there
  -- are any, which are as few.
  pub chunks_lem :
      (blocks : List Bytes)
      → AreLines max_line (chunks max_line max_bytes blocks)
        × OnOk
            (λ _.
              (flatten (chunks max_line max_bytes blocks).pieces ≡ flatten blocks)
              × (length (flatten blocks) ≤ max_bytes))
            (chunks max_line max_bytes blocks).outcome
  unfolding chunks
  chunks_lem blocks =
      subst (λ n. Complete n (flatten blocks) (read_blocks max_line max_bytes blocks 0 []))
        (omega arith) (read_blocks-Complete blocks 0 [] tt (omega arith) (omega arith))
