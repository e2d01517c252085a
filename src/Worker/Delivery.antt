-- ===== src/Worker/Delivery.antt =====
-- Every message is delivered at least once: over any number of runs of the loop, each of which
-- starts at the offsets that are committed, no message before them is missing in the target.
use ad_pulse.Prelude.{
  ℕ, ◌+◌, ◌<◌, ◌≤◌, ltb, ◌≡◌, sym, ap, ◌∙◌, List, [], ◌∷◌, ◌++◌, Option, none, some, arith,
  Bool-cases, Option-cases, inl, inr, IsAmong, All, IsAmong-All, IsAmong-append, IsAmong-right,
  IsAmong-left, nat_eq, string_eq, pair_eq,
}
use mathlib.Core.Path.{subst}
use ad_pulse.Prelude.Dict.{Dict, lookup}
use ad_pulse.Worker.{Message, TopicPartition, place_of, Target, Round, Polled, State, run}
use ad_pulse.Worker.Committed.{consumed, run-Progress}

-- Where a run starts to read a partition: at the committed offset, or else at the earliest.
abbrev pub start_of : Option ℕ → ℕ
start_of none = 0
start_of (some o) = o

abbrev pub start_at : TopicPartition → Dict TopicPartition ℕ → ℕ
start_at place committed = start_of (lookup place committed)

-- The messages of a partition come in the order of their offsets.
abbrev pub AreOrdered : List Message → Type 0
AreOrdered [] = Unit
AreOrdered (m ∷ l) = All (λ n. place_of n ≡ place_of m → m.offset < n.offset) l × AreOrdered l

-- What Kafka delivers to a run: of each partition the messages of the log in their order, from the
-- start on and without a gap.
pub record Delivers (log : List Message) (committed : Dict TopicPartition ℕ) (l : List Message)
    : Type 0 where
  pub ordered : AreOrdered l
  pub gapless :
      (m n : Message)
      → IsAmong m log
      → IsAmong n l
      → place_of n ≡ place_of m
      → m.offset ≤ n.offset
      → start_at (place_of m) committed ≤ m.offset
      → IsAmong m l

ordered_apart :
    (a b : List Message) (m n : Message)
    → AreOrdered (a ++ b)
    → IsAmong n a
    → IsAmong m b
    → place_of m ≡ place_of n
    → n.offset < m.offset
ordered_apart [] b m n h x y e = absurd x
ordered_apart (k ∷ a) b m n h (inl p) y e =
    let later =
      IsAmong-All (λ (j : Message). place_of j ≡ place_of k → k.offset < j.offset) m (a ++ b) h.0
        (IsAmong-right m a b y) in
    subst (λ (j : Message). j.offset < m.offset) (sym p) (later (e ∙ ap place_of p))
ordered_apart (k ∷ a) b m n h (inr x) y e = ordered_apart a b m n h.1 x y e

before_end :
    {m n o : ℕ} {found : Option ℕ} → m < start_of found → found ≡ some o → n + 1 ≡ o → m ≤ n
before_end less e one = ground (arith, less, e, one)

module _ {T : Type 0} (target : Target T) (log : List Message) where
  -- The runs of the processes of a group, one after the other.
  pub data History : State T → Type 0 where
    begins : (t : T) → History (record { stored = t; committed = [] })
    continues :
        {s : State T} (polls : List (List Polled × List Round))
        → History s
        → Delivers log s.committed (consumed polls)
        → History (run target polls s)

  abbrev pub IsComplete : State T → Type 0
  IsComplete s =
      (m : Message)
      → IsAmong m log
      → m.offset < start_at (place_of m) s.committed
      → target.holds m s.stored

  run-IsComplete :
      (polls : List (List Polled × List Round)) (s : State T)
      → IsComplete s
      → Delivers log s.committed (consumed polls)
      → IsComplete (run target polls s)
  run-IsComplete polls s before d m among less =
      let (seen, rest, split, h) = run-Progress target polls s in
      let earlier : m.offset < start_at (place_of m) s.committed
          → target.holds m (run target polls s).stored =
        λ l. h.kept m (before m among l) in
      elim (Option-cases (lookup (place_of m) (run target polls s).committed)) [
        | inl n ↦ absurd (ground (arith, less, n))
        | inr (o, e) ↦ elim (h.from (place_of m) o e) [
          | inl old ↦ earlier (ground (arith, less, e, old))
          | inr (n, x, same, one) ↦
              let reached : m.offset ≤ n.offset = before_end less e one in
              elim (Bool-cases (ltb m.offset (start_at (place_of m) s.committed))) [
                | inl t ↦ earlier (ground arith)
                | inr f ↦
                    let polled =
                      d.gapless m n among
                        (subst (λ (l : List Message). IsAmong n l) (sym split)
                          (IsAmong-left n seen rest x))
                        same reached (ground arith) in
                    elim (IsAmong-append m seen rest
                      (subst (λ (l : List Message). IsAmong m l) split polled)) [
                        | inl y ↦ h.held m y
                        | inr y ↦
                            let behind =
                              ordered_apart seen rest m n (subst AreOrdered split d.ordered) x y
                                (sym same) in
                            absurd (omega (arith, reached, behind))
                      ]
              ]
        ]
      ]

  delivered : (s : State T) → History s → IsComplete s
  unfolding lookup
  delivered _ (begins t) = λ m among less. absurd (ground arith)
  delivered _ (continues polls past d) = run-IsComplete polls _ (delivered _ past) d

  -- Over any number of runs of the loop, the first of which starts with no committed offset: if
  -- Kafka delivers to each run the messages of each partition in their order and without a gap from
  -- the committed offset on, then each message of the log before the committed offset of its
  -- partition is in the target, whatever calls and commits have failed or lost their answers and
  -- wherever the processes have stopped.
  pub worker_delivery :
      (s : State T) (history : History s) (m : Message)
      → IsAmong m log
      → m.offset < start_at (place_of m) s.committed
      → target.holds m s.stored
  worker_delivery s history m among less = delivered s history m among less
