-- ===== src/ChannelQueue/Flags.antt =====
-- The processing flags of PerChannelQueue, and the head of a queue, after each operation.
use moon_bot.Prelude.{String, ◌≡◌, refl, true, false, some, arith, eq_iff, ◌==◌, if◌then◌else◌}
use moon_bot.JsMap.Laws.{get-set, get-delete}
use moon_bot.ChannelQueue.{
  ChannelQueue, peek, enqueue, dequeue, start_processing, stop_processing, is_processing,
}
use moon_bot.ChannelQueue.Contents.{items-enqueue, items-dequeue}

module _ (c d : String) (q : ChannelQueue) where
  pub is_processing-start_processing :
      is_processing d (start_processing c q) ≡ (if c == d then true else is_processing d q)
  unfolding is_processing start_processing
  is_processing-start_processing = rw get-set (ground arith)

  pub is_processing-stop_processing :
      is_processing d (stop_processing c q) ≡ (if c == d then false else is_processing d q)
  unfolding is_processing stop_processing
  is_processing-stop_processing = rw get-delete (ground arith)

  pub is_processing-dequeue : is_processing d (dequeue c q).0 ≡ is_processing d q
  unfolding is_processing dequeue
  is_processing-dequeue = ground arith

  pub is_processing-enqueue : (x : String) → is_processing d (enqueue c x q).0 ≡ is_processing d q
  unfolding is_processing enqueue
  is_processing-enqueue x = ground arith

  pub peek-start_processing : peek d (start_processing c q) ≡ peek d q
  unfolding peek start_processing
  peek-start_processing = refl

  pub peek-stop_processing : peek d (stop_processing c q) ≡ peek d q
  unfolding peek stop_processing
  peek-stop_processing = refl

  pub peek-dequeue_ne : (c == d) ≡ false → peek d (dequeue c q).0 ≡ peek d q
  unfolding peek
  peek-dequeue_ne h = rw (items-dequeue c d q, h)

  -- What stands at the head stays there while others queue up behind it.
  pub peek-enqueue : (x y : String) → peek d q ≡ some y → peek d (enqueue c x q).0 ≡ some y
  unfolding peek
  peek-enqueue x y h = rw (items-enqueue c d q x) (ground (arith, eq_iff c d))

pub ruleset flags = (
  is_processing-start_processing, is_processing-stop_processing, is_processing-dequeue,
  is_processing-enqueue, peek-start_processing, peek-stop_processing,
)
