-- ===== src/ChannelQueue/Refinement.antt =====
-- PerChannelQueue against a contract: a bounded list for each channel.
use moon_bot.Prelude.{
  ℕ, ◌+◌, ◌≤◌, String, ◌≡◌, refl, ap, ap₂, Bool, true, false, Option, none, some, List, [], ◌∷◌,
  ◌++◌, arith, eq_iff, ltb, length, length-append, ◌==◌, if◌then◌else◌, Option-cases, inl, inr,
}
use moon_bot.ChannelQueue.{
  ChannelQueue, items, head?, tail, enqueue, dequeue, remove, without, clear, start_processing,
  stop_processing,
}
use moon_bot.ChannelQueue.Contents.{
  items-enqueue, items-dequeue, items-remove, items-clear, accepted-enqueue, result-dequeue,
  without_splits,
}

pub data Call : Type 0 where
  enqueues removes : String → String → Call
  dequeues clears starts stops : String → Call

pub data Reply : Type 0 where
  flag : Bool → Reply
  item : Option String → Reply
  count : ℕ → Reply
  quiet : Reply

unfoldable pub step : ChannelQueue → Call → ChannelQueue × Reply
step q (enqueues c x) = let (q', b) = enqueue c x q in (q', flag b)
step q (removes c x) = let (q', b) = remove c x q in (q', flag b)
step q (dequeues c) = let (q', x) = dequeue c q in (q', item x)
step q (clears c) = let (q', n) = clear c q in (q', count n)
step q (starts c) = (start_processing c q, quiet)
step q (stops c) = (stop_processing c q, quiet)

-- The contract: a list of at most `max` items for each channel.
abbrev pub Lists : Type 0
Lists = String → List String

abbrev put : String → List String → Lists → Lists
put c xs s d = if c == d then xs else s d

unfoldable pub contract : ℕ → Lists → Call → Lists × Reply
contract max s (enqueues c x) =
    if ltb (length (s c)) max then (put c (s c ++ x ∷ []) s, flag true) else (s, flag false)
contract max s (removes c x) = elim (without x (s c)) [
  | none ↦ (s, flag false)
  | some xs ↦ (put c xs s, flag true)
]
contract max s (dequeues c) = (put c (tail (s c)) s, item (head? (s c)))
contract max s (clears c) = (put c [] s, count (length (s c)))
contract max s (starts c) = (s, quiet)
contract max s (stops c) = (s, quiet)

pub record Refines (q : ChannelQueue) (s : Lists) : Type 0 where
  pub same : (d : String) → items d q ≡ s d

step-reply :
    (q : ChannelQueue) (s : Lists) (k : Call)
    → Refines q s
    → (step q k).1 ≡ (contract q.max_size_per_channel s k).1
unfolding step contract
step-reply q s (enqueues c x) h = ground (arith, accepted-enqueue c q x, h.same c)
step-reply q s (removes c x) h = unfold remove in rw (h.same c) (ground arith)
step-reply q s (dequeues c) h = rw (result-dequeue c q, h.same c) refl
step-reply q s (clears c) h = unfold clear in rw (h.same c) refl
step-reply q s (starts c) h = refl
step-reply q s (stops c) h = refl

step-Refines :
    (q : ChannelQueue) (s : Lists) (k : Call)
    → Refines q s
    → Refines (step q k).0 (contract q.max_size_per_channel s k).0
unfolding step contract
step-Refines q s (enqueues c x) h = record {
  same = λ d. ground (arith, items-enqueue c d q x, h.same c, h.same d, eq_iff c d);
}
step-Refines q s (removes c x) h = record {
  same = λ d. rw (items-remove c d q x) (rw (h.same c) (ground (arith, h.same d)));
}
step-Refines q s (dequeues c) h = record {
  same = λ d. rw (items-dequeue c d q) (rw (h.same c, h.same d) refl);
}
step-Refines q s (clears c) h = record { same = λ d. rw (items-clear c d q) (rw (h.same d) refl) }
step-Refines q s (starts c) h = unfold start_processing in record { same = h.same }
step-Refines q s (stops c) h = unfold stop_processing in record { same = h.same }

pub max-step :
    (q : ChannelQueue) (k : Call) → (step q k).0.max_size_per_channel ≡ q.max_size_per_channel
unfolding step
max-step q (enqueues c x) = unfold enqueue in ground arith
max-step q (removes c x) = unfold remove in ground arith
max-step q (dequeues c) = unfold dequeue in ground arith
max-step q (clears c) = unfold clear in refl
max-step q (starts c) = unfold start_processing in refl
max-step q (stops c) = unfold stop_processing in refl

-- The replies and the final state of a run.
unfoldable pub run : ChannelQueue → List Call → ChannelQueue × List Reply
run q [] = (q, [])
run q (k ∷ ks) =
    let (q', reply) = step q k in let (q'', replies) = run q' ks in (q'', reply ∷ replies)

unfoldable pub run_contract : ℕ → Lists → List Call → Lists × List Reply
run_contract max s [] = (s, [])
run_contract max s (k ∷ ks) =
    let (s', reply) = contract max s k in
    let (s'', replies) = run_contract max s' ks in (s'', reply ∷ replies)

-- Whatever calls are made, in any order and on any channels, a queue that holds the lists of the
-- contract gives the replies of the contract, and holds for each channel the list that the contract
-- holds afterwards.
pub run-Refines :
    (q : ChannelQueue) (s : Lists) (ks : List Call)
    → Refines q s
    → ((run q ks).1 ≡ (run_contract q.max_size_per_channel s ks).1)
      × Refines (run q ks).0 (run_contract q.max_size_per_channel s ks).0
unfolding run run_contract
run-Refines q s [] h = (refl, h)
run-Refines q s (k ∷ ks) h =
    let rest =
      run-Refines (step q k).0 (contract q.max_size_per_channel s k).0 ks (step-Refines q s k h) in
    let rest' = rw (max-step q k) at rest in
    (ap₂ (λ x xs. x ∷ xs) (step-reply q s k h) rest'.0, rest'.1)

abbrev pub IsBounded : ChannelQueue → Type 0
IsBounded q = (c : String) → length (items c q) ≤ q.max_size_per_channel

length-without :
    (x : String) (xs ys : List String) → without x xs ≡ some ys → length ys + 1 ≡ length xs
length-without x xs ys h =
    let (before, after, p, r, _) = without_splits x xs ys h in
    omega (
      arith,
      ap (length {A = String}) p,
      ap (length {A = String}) r,
      length-append before after,
      length-append before (x ∷ after),
    )

length-remove :
    (c d x : String) (q : ChannelQueue)
    → IsBounded q
    → length (items d (remove c x q).0) ≤ q.max_size_per_channel
length-remove c d x q h = elim (Option-cases (without x (items c q))) [
  | inl e ↦ rw (items-remove c d q x, e) (h d)
  | inr (xs, e) ↦
      rw (items-remove c d q x, e) (ground (arith, length-without x (items c q) xs e, h c, h d))
]

length-step :
    (q : ChannelQueue) (k : Call) (d : String)
    → IsBounded q
    → length (items d (step q k).0) ≤ q.max_size_per_channel
unfolding step
length-step q (enqueues c x) d h =
    rw (items-enqueue c d q x) (ground (arith, length-append (items c q) (x ∷ []), h c, h d))
length-step q (removes c x) d h = length-remove c d x q h
length-step q (dequeues c) d h = rw (items-dequeue c d q) (ground (arith, h c, h d))
length-step q (clears c) d h = rw (items-clear c d q) (ground (arith, h d))
length-step q (starts c) d h = unfold start_processing in h d
length-step q (stops c) d h = unfold stop_processing in h d

-- No call on the queue makes the list of any channel longer than the limit, if none was longer
-- before.
pub step-IsBounded : (q : ChannelQueue) (k : Call) → IsBounded q → IsBounded (step q k).0
step-IsBounded q k h d = rw (max-step q k) (length-step q k d h)
