-- ===== src/Worker.antt =====
-- adpulse/worker.py, the loop of `main`. The target of a role is an interface; Kafka hands out the
-- batches and answers the commits, and both are arguments.
pub mod Committed
pub mod Delivery
pub mod Archiver
pub mod Sink
use ad_pulse.Prelude.{
  ℕ, ◌+◌, ltb, String, ◌≡◌, Bool, true, false, List, [], ◌∷◌, Option, none, some, if◌then◌else◌,
  string_eq, nat_eq, pair_eq, IsAmong,
}
use ad_pulse.Prelude.Dict.{Dict, insert}
use ad_pulse.Json.{Value}

pub record Message : Type 0 where
  pub topic : String
  pub partition : ℕ
  pub offset : ℕ
  pub value : Value

abbrev pub TopicPartition : Type 0
TopicPartition = String × ℕ

abbrev pub place_of : Message → TopicPartition
place_of m = (m.topic, m.partition)

-- What the loop uses of `archive_batch` or `write_batch`: a call leaves a state, and returns or
-- raises. With the fault `some n`, only `n` of its requests to the service take effect. A call that
-- returns has its messages in the target, and no call loses any.
pub record Target (T : Type 0) : Type 1 where
  pub persist : Option ℕ → List Message → T → T × Bool
  pub holds : Message → T → Type 0
  pub persists :
      (fault : Option ℕ) (batch : List Message) (t : T)
      → (persist fault batch t).1 ≡ true
      → (m : Message) → IsAmong m batch
      → holds m (persist fault batch t).0
  pub keeps :
      (fault : Option ℕ) (batch : List Message) (t : T) (m : Message)
      → holds m t
      → holds m (persist fault batch t).0

-- Whether request number `n` takes effect.
abbrev pub reaches : ℕ → Option ℕ → Bool
reaches n none = true
reaches n (some count) = ltb n count

-- `consumer.commit` raises without or with an effect, or returns.
pub data Commit : Type 0 where
  refused lost answered : Commit

-- What the services do in one round of the inner loop.
pub record Round : Type 0 where
  pub fault : Option ℕ
  pub commit : Commit

-- An element of what `consumer.consume` returns: `message.error()` is set, or it is a message.
pub data Polled : Type 0 where
  failed : Polled
  delivered : Message → Polled

abbrev and_then : Message → Option (List Message) → Option (List Message)
and_then m none = none
and_then m (some l) = some (m ∷ l)

unfoldable pub messages_of : List Polled → Option (List Message)
messages_of [] = some []
messages_of (failed ∷ l) = none
messages_of (delivered m ∷ l) = and_then m (messages_of l)

-- `offsets`, from those of the messages before
unfoldable pub offsets_from : List Message → Dict TopicPartition ℕ → Dict TopicPartition ℕ
unfolding insert
offsets_from [] offsets = offsets
offsets_from (m ∷ l) offsets = offsets_from l (insert (place_of m) (m.offset + 1) offsets)

-- The target, and the offsets that the consumer group has committed.
pub record State (T : Type 0) : Type 0 where
  pub stored : T
  pub committed : Dict TopicPartition ℕ

module _ {T : Type 0} (target : Target T) where
  -- The commit after a call that returned, and whether the loop ends by `break`.
  unfoldable pub commit_batch : T → List Message → Commit → Dict TopicPartition ℕ → State T × Bool
  unfolding offsets_from
  commit_batch t batch refused offsets = (record { stored = t; committed = offsets }, false)
  commit_batch t batch lost offsets =
      (record { stored = t; committed = offsets_from batch offsets }, false)
  commit_batch t batch answered offsets =
      (record { stored = t; committed = offsets_from batch offsets }, true)

  -- One round of the inner loop.
  unfoldable pub attempt : List Message → Round → State T → State T × Bool
  unfolding commit_batch
  attempt batch round s =
      let (t, returned) = target.persist round.fault batch s.stored in
      if returned
      then commit_batch t batch round.commit s.committed
      else (record { stored = t; committed = s.committed }, false)

  -- The inner loop while the process runs; with no round left it was stopped, and holds the batch.
  unfoldable pub hold : List Message → List Round → State T → State T × Bool
  unfolding attempt
  hold batch [] s = (s, false)
  hold batch (round ∷ rounds) s =
      let (s', done) = attempt batch round s in
      let rest = hold batch rounds s' in if done then (s', true) else rest

  -- The body of the outer loop, and whether the process goes on.
  unfoldable pub take_batch : Option (List Message) → List Round → State T → State T × Bool
  unfolding hold
  take_batch none rounds s = (s, false)
  take_batch (some []) rounds s = (s, true)
  take_batch (some (m ∷ l)) rounds s = hold (m ∷ l) rounds s

  -- The outer loop over what is polled, each with the rounds of its inner loop.
  unfoldable pub run : List (List Polled × List Round) → State T → State T
  unfolding take_batch messages_of
  run [] s = s
  run ((polled, rounds) ∷ l) s =
      let (s', goes_on) = take_batch (messages_of polled) rounds s in
      let rest = run l s' in if goes_on then rest else s'
