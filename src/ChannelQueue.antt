-- ===== src/ChannelQueue.antt =====
-- PerChannelQueue (src/orchestrator/PerChannelQueue.ts), at the items that the orchestrator queues:
-- task ids. A queue and a processing flag for each channel session. Listing with a test on the length
-- is `get_channels_with_pending`; a call that mutates returns the new queue first.
pub mod Contents
pub mod Refinement
pub mod Fifo
pub mod Flags
use moon_bot.Prelude.{
  ℕ, ◌+◌, String, Bool, true, false, Option, none, some, List, [], ◌∷◌, ◌++◌, leb, ltb, filter,
  length, ◌==◌, if◌then◌else◌,
}
use moon_bot.JsMap
use moon_bot.JsMap.{JsMap, set, delete, has, keys, values}

pub record ChannelQueue : Type 0 where
  pub queues : JsMap (List String)
  pub processing : JsMap Bool
  pub max_size_per_channel : ℕ

abbrev pub new : ℕ → ChannelQueue
new max = record { queues = []; processing = []; max_size_per_channel = max }

abbrev pub or_nil : Option (List String) → List String
or_nil none = []
or_nil (some xs) = xs

-- `this.queues.get(id)`, where a missing queue counts as an empty one.
abbrev pub items : String → ChannelQueue → List String
items c q = or_nil (JsMap.get c q.queues)

-- The queue of the channel is created before the length is tested.
abbrev opened : String → ChannelQueue → JsMap (List String)
opened c q = if has c q.queues then q.queues else set c [] q.queues

unfoldable pub enqueue : String → String → ChannelQueue → ChannelQueue × Bool
enqueue c item q =
    let queues = opened c q in
    let queue = or_nil (JsMap.get c queues) in
    if leb q.max_size_per_channel (length queue)
    then (record q { queues = queues }, false)
    else (record q { queues = set c (queue ++ item ∷ []) queues }, true)

abbrev pub head? : List String → Option String
head? [] = none
head? (x ∷ xs) = some x

abbrev pub tail : List String → List String
tail [] = []
tail (x ∷ xs) = xs

unfoldable pub peek : String → ChannelQueue → Option String
peek c q = head? (items c q)

-- "Clean up empty queues".
abbrev stored : String → List String → JsMap (List String) → JsMap (List String)
stored c [] m = delete c m
stored c (x ∷ xs) m = set c (x ∷ xs) m

take_head : String → List String → ChannelQueue → ChannelQueue × Option String
take_head c [] q = (q, none)
take_head c (x ∷ xs) q = (record q { queues = stored c xs q.queues }, some x)

unfoldable pub dequeue : String → ChannelQueue → ChannelQueue × Option String
unfolding take_head
dequeue c q = take_head c (items c q) q

-- `indexOf` and `splice(index, 1)`; `none` is -1.
unfoldable pub without : String → List String → Option (List String)
without item [] = none
without item (x ∷ xs) =
    if x == item then some xs else elim (without item xs) [ none ↦ none | some ys ↦ some (x ∷ ys) ]

take_out : String → Option (List String) → ChannelQueue → ChannelQueue × Bool
take_out c none q = (q, false)
take_out c (some xs) q = (record q { queues = stored c xs q.queues }, true)

unfoldable pub remove : String → String → ChannelQueue → ChannelQueue × Bool
unfolding take_out without
remove c item q = take_out c (without item (items c q)) q

unfoldable pub start_processing : String → ChannelQueue → ChannelQueue
start_processing c q = record q { processing = set c true q.processing }

unfoldable pub stop_processing : String → ChannelQueue → ChannelQueue
stop_processing c q = record q { processing = delete c q.processing }

abbrev or_false : Option Bool → Bool
or_false none = false
or_false (some b) = b

unfoldable pub is_processing : String → ChannelQueue → Bool
is_processing c q = or_false (JsMap.get c q.processing)

unfoldable pub size : String → ChannelQueue → ℕ
size c q = length (items c q)

unfoldable pub has_pending : String → ChannelQueue → Bool
unfolding size
has_pending c q = ltb 0 (size c q)

unfoldable pub get_channels_with_pending : ChannelQueue → List String
unfolding size
get_channels_with_pending q = filter (λ c. ltb 0 (size c q)) (keys q.queues)

unfoldable pub clear : String → ChannelQueue → ChannelQueue × ℕ
clear c q = (
  record q { queues = delete c q.queues; processing = delete c q.processing },
  length (items c q),
)

unfoldable pub total_length : List (List String) → ℕ
total_length [] = 0
total_length (xs ∷ xss) = length xs + total_length xss

pub record Stats : Type 0 where
  pub channels : ℕ
  pub total_items : ℕ
  pub processing : ℕ

unfoldable pub get_stats : ChannelQueue → Stats
unfolding total_length
get_stats q = record {
  channels = length q.queues;
  total_items = total_length (values q.queues);
  processing = length q.processing;
}
