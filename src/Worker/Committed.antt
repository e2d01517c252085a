-- ===== src/Worker/Committed.antt =====
-- What a run of the loop leaves: how far it came, what is in the target, and where the committed
-- offsets come from.
use ad_pulse.Prelude.{
  ℕ, ◌+◌, ◌≡◌, refl, sym, ap, ◌∙◌, Bool, true, List, [], ◌∷◌, ◌++◌, Option, none, some, ◌==◌,
  string_eq, nat_eq, pair_eq, arith, Bool-cases, if_both, inl, inr, ◌⊎◌, IsAmong, IsAmong-left,
  IsAmong-right, IsAmong-append,
}
use mathlib.Core.List.{append_assoc}
use ad_pulse.Prelude.Dict.{Dict, lookup, insert, lookup-insert}
use ad_pulse.Worker.{
  Message, TopicPartition, place_of, Target, Commit, refused, lost, answered, Round, Polled,
  messages_of, State, offsets_from, commit_batch, attempt, hold, take_batch, run,
}

-- One of the messages is the one before the offset.
abbrev pub IsAfter : List Message → TopicPartition → ℕ → Type 0
IsAfter l place o = (m : Message) × IsAmong m l × (place_of m ≡ place) × (m.offset + 1 ≡ o)

offsets-IsAfter :
    (l : List Message) (offsets : Dict TopicPartition ℕ) (place : TopicPartition) (o : ℕ)
    → lookup place (offsets_from l offsets) ≡ some o
    → (lookup place offsets ≡ some o) ⊎ IsAfter l place o
unfolding offsets_from
offsets-IsAfter [] offsets place o e = inl e
offsets-IsAfter (m ∷ l) offsets place o e =
    elim (offsets-IsAfter l (insert (place_of m) (m.offset + 1) offsets) place o e) [
      | inr (n, among, same, one) ↦ inr (n, inr among, same, one)
      | inl f ↦ elim (Bool-cases (place == place_of m)) [
        | inl same ↦ inr (
          m,
          inl refl,
          ground (arith, same),
          ground (arith, lookup-insert place (place_of m) (m.offset + 1) offsets, f, same),
        )
        | inr other ↦
            inl (ground (arith, lookup-insert place (place_of m) (m.offset + 1) offsets, f, other))
      ]
    ]

-- The messages that were polled without an error.
abbrev polled_in : Option (List Message) → List Message
polled_in none = []
polled_in (some l) = l

abbrev pub consumed : List (List Polled × List Round) → List Message
consumed [] = []
consumed ((polled, rounds) ∷ l) = polled_in (messages_of polled) ++ consumed l

module _ {T : Type 0} (target : Target T) where
  -- From `s` to `s'` nothing in the target is lost, the messages of `l` are in it, and a committed
  -- offset is the old one or follows one of them.
  pub record Advances (s : State T) (l : List Message) (s' : State T) : Type 0 where
    pub kept : (m : Message) → target.holds m s.stored → target.holds m s'.stored
    pub held : (m : Message) → IsAmong m l → target.holds m s'.stored
    pub from :
        (place : TopicPartition) (o : ℕ)
        → lookup place s'.committed ≡ some o
        → (lookup place s.committed ≡ some o) ⊎ IsAfter l place o

  stays : (s : State T) → Advances s [] s
  stays s = record { kept = λ m h. h; held = λ m h. absurd h; from = λ place o e. inl e }

  both :
      {s s' s'' : State T} (a b : List Message)
      → Advances s a s'
      → Advances s' b s''
      → Advances s (a ++ b) s''
  both a b h k = record {
    kept = λ m x. k.kept m (h.kept m x);
    held =
        λ m x. elim (IsAmong-append m a b x) [ inl l ↦ k.kept m (h.held m l) | inr r ↦ k.held m r ];
    from = λ place o e. elim (k.from place o e) [
      | inl old ↦ elim (h.from place o old) [
        | inl older ↦ inl older
        | inr (m, l, same, one) ↦ inr (m, IsAmong-left m a b l, same, one)
      ]
      | inr (m, r, same, one) ↦ inr (m, IsAmong-right m a b r, same, one)
    ];
  }

  same_messages :
      {s s' : State T} (a b : List Message)
      → ((m : Message) → IsAmong m a → IsAmong m b)
      → ((m : Message) → IsAmong m b → IsAmong m a)
      → Advances s a s'
      → Advances s b s'
  same_messages a b f g h = record {
    kept = h.kept;
    held = λ m x. h.held m (g m x);
    from = λ place o e. elim (h.from place o e) [
      | inl old ↦ inl old
      | inr (m, x, same, one) ↦ inr (m, f m x, same, one)
    ];
  }

  no_more :
      {s s' s'' : State T} (a : List Message)
      → Advances s a s'
      → Advances s' [] s''
      → Advances s a s''
  no_more a h k =
      same_messages (a ++ []) a
        (λ m x. elim (IsAmong-append m a [] x) [ inl l ↦ l | inr r ↦ absurd r ])
        (λ m x. IsAmong-left m a [] x) (both a [] h k)

  twice :
      {s s' s'' : State T} (a : List Message)
      → Advances s a s'
      → Advances s' a s''
      → Advances s a s''
  twice a h k =
      same_messages (a ++ a) a (λ m x. elim (IsAmong-append m a a x) [ inl l ↦ l | inr r ↦ r ])
        (λ m x. IsAmong-left m a a x) (both a a h k)

  -- After rounds on a batch it was persisted or not, and it was if the loop has ended by `break`.
  abbrev Rounds : State T → List Message → State T × Bool → Type 0
  Rounds s batch r =
      (Advances s [] r.0 ⊎ Advances s batch r.0) × (r.1 ≡ true → Advances s batch r.0)

  commit_batch-Rounds :
      (s : State T) (batch : List Message) (commit : Commit) (t : T)
      → ((m : Message) → target.holds m s.stored → target.holds m t)
      → ((m : Message) → IsAmong m batch → target.holds m t)
      → Rounds s batch (commit_batch target t batch commit s.committed)
  unfolding commit_batch
  commit_batch-Rounds s batch refused t kept held = (
    inl (record { kept = kept; held = λ m h. absurd h; from = λ place o e. inl e }),
    λ h. absurd (cc),
  )
  commit_batch-Rounds s batch lost t kept held = (
    inr (record { kept = kept; held = held; from = offsets-IsAfter batch s.committed }),
    λ h. absurd (cc),
  )
  commit_batch-Rounds s batch answered t kept held =
      let done : Advances s batch
          (record { stored = t; committed = offsets_from batch s.committed }) =
        record { kept = kept; held = held; from = offsets-IsAfter batch s.committed } in
      (inr done, λ h. done)

  attempt-Rounds :
      (batch : List Message) (round : Round) (s : State T)
      → Rounds s batch (attempt target batch round s)
  unfolding attempt
  attempt-Rounds batch round s =
      let kept = target.keeps round.fault batch s.stored in
      if_both (Rounds s batch) (target.persist round.fault batch s.stored).1 _ _
        (λ returned.
          commit_batch-Rounds s batch round.commit _ kept
            (target.persists round.fault batch s.stored returned))
        (λ n. (
          inl (record { kept = kept; held = λ m h. absurd h; from = λ place o e. inl e }),
          λ h. absurd (cc),
        ))

  after_round :
      {s s' : State T} (batch : List Message) {r : State T × Bool}
      → Advances s [] s' ⊎ Advances s batch s'
      → Rounds s' batch r
      → Rounds s batch r
  after_round batch (inl h) (inl k, done) = (inl (both [] [] h k), λ d. both [] batch h (done d))
  after_round batch (inl h) (inr k, done) = (inr (both [] batch h k), λ d. both [] batch h (done d))
  after_round batch (inr h) (inl k, done) = (inr (no_more batch h k), λ d. twice batch h (done d))
  after_round batch (inr h) (inr k, done) = (inr (twice batch h k), λ d. twice batch h (done d))

  hold-Rounds :
      (batch : List Message) (rounds : List Round) (s : State T)
      → Rounds s batch (hold target batch rounds s)
  unfolding hold
  hold-Rounds batch [] s = (inl (stays s), λ h. absurd (cc))
  hold-Rounds batch (round ∷ l) s =
      let one = attempt-Rounds batch round s in
      if_both (Rounds s batch) (attempt target batch round s).1 _ _
        (λ done. (inr (one.1 done), λ h. one.1 done))
        (λ more. after_round batch one.0 (hold-Rounds batch l (attempt target batch round s).0))

  take_batch-Rounds :
      (r : Option (List Message)) (rounds : List Round) (s : State T)
      → Rounds s (polled_in r) (take_batch target r rounds s)
  unfolding take_batch
  take_batch-Rounds none rounds s = (inl (stays s), λ h. stays s)
  take_batch-Rounds (some []) rounds s = (inl (stays s), λ h. stays s)
  take_batch-Rounds (some (m ∷ l)) rounds s = hold-Rounds (m ∷ l) rounds s

  -- A run gets through the first messages that are polled, and not to the others.
  abbrev pub Progress : List Message → State T → State T → Type 0
  Progress l s s' =
      (seen : List Message) × (rest : List Message) × (l ≡ seen ++ rest) × Advances s seen s'

  stopped :
      (l rest : List Message) {s s' : State T}
      → Advances s [] s' ⊎ Advances s l s'
      → Progress (l ++ rest) s s'
  stopped l rest (inl h) = ([], l ++ rest, refl, h)
  stopped l rest (inr h) = (l, rest, refl, h)

  pub run-Progress :
      (polls : List (List Polled × List Round)) (s : State T)
      → Progress (consumed polls) s (run target polls s)
  unfolding run
  run-Progress [] s = ([], [], refl, stays s)
  run-Progress ((polled, rounds) ∷ l) s =
      let batch = polled_in (messages_of polled) in
      let first = take_batch target (messages_of polled) rounds s in
      let one = take_batch-Rounds (messages_of polled) rounds s in
      let (seen, rest, e, h) = run-Progress l first.0 in
      if_both (Progress (batch ++ consumed l) s) first.1 _ _
        (λ goes_on. (
          batch ++ seen,
          rest,
          ap (λ (r : List Message). batch ++ r) e ∙ sym (append_assoc batch seen rest),
          both batch seen (one.1 goes_on) h,
        ))
        (λ n. stopped batch (consumed l) one.0)

  -- The committed offset is one past that of a message of the partition that is in the target.
  abbrev pub AreCommitted : State T → Type 0
  AreCommitted s =
      (place : TopicPartition) (o : ℕ)
      → lookup place s.committed ≡ some o
      → (m : Message) × target.holds m s.stored × (place_of m ≡ place) × (m.offset + 1 ≡ o)

  -- After any run from a group that has committed nothing, whatever calls and commits fail and
  -- wherever the process stops, each committed offset is one past that of a message of its
  -- partition that is in the target.
  pub worker_committed :
      (polls : List (List Polled × List Round)) (t : T)
      → AreCommitted (run target polls (record { stored = t; committed = [] }))
  unfolding lookup
  worker_committed polls t place o e =
      let (seen, rest, _, h) = run-Progress polls (record { stored = t; committed = [] }) in
      elim (h.from place o e) [
        | inl old ↦ absurd (cc)
        | inr (m, among, same, one) ↦ (m, h.held m among, same, one)
      ]
