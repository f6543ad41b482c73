-- ===== src/Orchestrator/Serial.antt =====
-- One execution at a time on each channel session: the state of the queue and of the executions that
-- wait for the executor.
use moon_bot.Prelude.{
  ℕ, suc, ◌≤◌, String, ◌≡◌, Bool, true, false, some, List, [], ◌∷◌, arith, eq_iff, eq_refl, ◌==◌,
  if◌then◌else◌,
}
use moon_bot.ChannelQueue.{
  ChannelQueue, peek, is_processing, start_processing, stop_processing, dequeue, enqueue,
}
use moon_bot.ChannelQueue.Flags.{flags, peek-dequeue_ne, peek-enqueue}
use moon_bot.Orchestrator.State.{Execution}
use moon_bot.Orchestrator.Channel.{drop}
use moon_bot.Orchestrator.Tasks.{is_waiting}

-- How many executions of a channel session wait.
unfoldable pub running_in : String → List Execution → ℕ
running_in c [] = 0
running_in c (x ∷ xs) =
    let rest = running_in c xs in if x.channel_session_id == c then suc rest else rest

abbrev pub flag : Bool → ℕ
flag true = 1
flag false = 0

-- A channel session has one execution where its flag is up and none where it is not, and the task
-- of an execution is the head of its queue.
pub record IsSerial (q : ChannelQueue) (xs : List Execution) : Type 0 where
  pub one : (c : String) → running_in c xs ≡ flag (is_processing c q)
  pub at_head :
      (x : Execution) → is_waiting x xs ≡ true → peek x.channel_session_id q ≡ some x.task_id

running_in-pos :
    (x : Execution) (xs : List Execution)
    → is_waiting x xs ≡ true
    → 1 ≤ running_in x.channel_session_id xs
unfolding running_in is_waiting
running_in-pos x [] h = cc
running_in-pos x (y ∷ ys) h = ground (
  arith,
  eq_iff x.channel_session_id y.channel_session_id,
  eq_iff y.channel_session_id x.channel_session_id,
  running_in-pos x ys,
)

running_in-drop :
    (c : String) (x : Execution) (xs : List Execution)
    → is_waiting x xs ≡ true
    → running_in c xs ≡ (
        if x.channel_session_id == c
        then suc (running_in c (drop x xs))
        else running_in c (drop x xs))
unfolding running_in is_waiting drop
running_in-drop c x [] h = cc
running_in-drop c x (y ∷ ys) h =
    ground (arith, eq_iff x.channel_session_id y.channel_session_id, running_in-drop c x ys)

is_waiting-drop :
    (x z : Execution) (xs : List Execution)
    → is_waiting z (drop x xs) ≡ true
    → is_waiting z xs ≡ true
unfolding is_waiting drop
is_waiting-drop x z [] h = h
is_waiting-drop x z (y ∷ ys) h = ground (arith, is_waiting-drop x z ys)

-- An execution elsewhere is on another channel session.
elsewhere :
    (c : String) (z : Execution) (xs : List Execution)
    → running_in c xs ≡ 0
    → is_waiting z xs ≡ true
    → (c == z.channel_session_id) ≡ false
elsewhere c z xs none_here h = ground (arith, eq_iff c z.channel_session_id, running_in-pos z xs h)

module _ (q : ChannelQueue) (xs : List Execution) (s : IsSerial q xs) (c : String) where
  -- `startProcessing` and a new execution of the head.
  pub start-IsSerial :
      (id channel : String)
      → is_processing c q ≡ false
      → peek c q ≡ some id
      → IsSerial
          (start_processing c q)
          (record { task_id = id; channel_session_id = c; channel_id = channel } ∷ xs)
  unfolding running_in is_waiting
  start-IsSerial id channel idle top = record {
    one = λ d. simp flags (ground (arith, eq_iff c d, s.one c, s.one d));
    at_head = λ x h.
        simp flags
          (ground (arith, eq_iff x.channel_session_id c, eq_iff x.task_id id, s.at_head x));
  }

  -- The head is taken off again, where its task is not found.
  pub skip-IsSerial :
      is_processing c q ≡ false
      → IsSerial (stop_processing c (dequeue c (start_processing c q)).0) xs
  skip-IsSerial idle = record {
    one = λ d. simp flags (ground (arith, eq_iff c d, s.one c, s.one d));
    at_head = λ x h. simp flags (
        rw
          (peek-dequeue_ne c x.channel_session_id (start_processing c q)
            (elsewhere c x xs (ground (arith, s.one c)) h))
          (simp flags (s.at_head x h)));
  }

  pub enqueue-IsSerial : (x : String) → IsSerial (enqueue c x q).0 xs
  enqueue-IsSerial x = record {
    one = λ d. simp flags (s.one d);
    at_head = λ z h. peek-enqueue c z.channel_session_id q x z.task_id (s.at_head z h);
  }

-- The end of an execution: only its own head leaves the queue.
pub finish-IsSerial :
    (q : ChannelQueue) (xs : List Execution)
    → IsSerial q xs
    → (x : Execution) → is_waiting x xs ≡ true
    → IsSerial (stop_processing x.channel_session_id (dequeue x.channel_session_id q).0) (drop x xs)
finish-IsSerial q xs s x w = record {
  one = λ d.
      simp flags (ground (arith, running_in-drop d x xs, s.one d, eq_iff x.channel_session_id d));
  at_head = λ z h. simp flags (
      rw
        (peek-dequeue_ne x.channel_session_id z.channel_session_id q
          (elsewhere x.channel_session_id z (drop x xs) none_left h))
        (s.at_head z (is_waiting-drop x z xs h)));
}
  where
    none_left : running_in x.channel_session_id (drop x xs) ≡ 0
    none_left = ground (
      arith,
      running_in-drop x.channel_session_id x xs w,
      s.one x.channel_session_id,
      eq_refl x.channel_session_id,
    )
