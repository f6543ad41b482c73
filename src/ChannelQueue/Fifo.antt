-- ===== src/ChannelQueue/Fifo.antt =====
-- PerChannelQueue: the order of what is taken.
use moon_bot.Prelude.{
  String, ◌≡◌, ap, sym, ◌∙◌, Bool, false, Option, none, some, List, [], ◌∷◌, ◌++◌, append_assoc,
  append-nil, arith, eq_iff, All, ◌==◌, if◌then◌else◌, ◌&&◌,
}
use moon_bot.ChannelQueue.{ChannelQueue, items, enqueue, dequeue, start_processing, stop_processing}
use moon_bot.ChannelQueue.Contents.{
  items-enqueue, items-dequeue, items-remove, items-clear, accepted-enqueue, result-dequeue,
}
use moon_bot.ChannelQueue.Refinement.{
  Call, enqueues, removes, dequeues, clears, starts, stops, step, run,
}

-- What one call adds to the channel `c`, and what it hands out of it.
abbrev pub accepts : String → ChannelQueue → Call → List String
accepts c q (enqueues d x) = if d == c && (enqueue d x q).1 then x ∷ [] else []
accepts c q _ = []

abbrev handed : String → String → Option String → List String
handed c d none = []
handed c d (some x) = if d == c then x ∷ [] else []

abbrev pub takes : String → ChannelQueue → Call → List String
takes c q (dequeues d) = handed c d (dequeue d q).1
takes c q _ = []

unfoldable pub accepted : String → ChannelQueue → List Call → List String
accepted c q [] = []
accepted c q (k ∷ ks) = accepts c q k ++ accepted c (step q k).0 ks

unfoldable pub taken : String → ChannelQueue → List Call → List String
taken c q [] = []
taken c q (k ∷ ks) = takes c q k ++ taken c (step q k).0 ks

-- A call that takes items out of the middle of the channel `c`, or throws them away.
abbrev pub disturbs : String → Call → Bool
disturbs c (removes d x) = d == c
disturbs c (clears d) = d == c
disturbs c _ = false

undisturbed :
    (c : String) (q : ChannelQueue) (k : Call)
    → disturbs c k ≡ false
    → takes c q k ++ items c (step q k).0 ≡ items c q ++ accepts c q k
unfolding step
undisturbed c q (enqueues d x) h =
    rw (items-enqueue d c q x, accepted-enqueue d q x)
      (ground (arith, eq_iff d c, append-nil (items c q)))
undisturbed c q (removes d x) h = rw (items-remove d c q x) (ground (arith, append-nil (items c q)))
undisturbed c q (dequeues d) h =
    rw (items-dequeue d c q, result-dequeue d q)
      (ground (arith, eq_iff d c, append-nil (items c q)))
undisturbed c q (clears d) h = rw (items-clear d c q) (ground (arith, append-nil (items c q)))
undisturbed c q (starts d) h = unfold start_processing in sym (append-nil (items c q))
undisturbed c q (stops d) h = unfold stop_processing in sym (append-nil (items c q))

-- Of a channel on which no call removes from the middle or clears, the items taken, in the order of
-- taking, followed by those still there, are the items that were there, followed by those accepted,
-- in the order of acceptance, whatever happens on other channels.
pub fifo :
    (c : String) (q : ChannelQueue) (ks : List Call)
    → All (λ k. disturbs c k ≡ false) ks
    → taken c q ks ++ items c (run q ks).0 ≡ items c q ++ accepted c q ks
unfolding run taken accepted
fifo c q [] h = sym (append-nil _)
fifo c q (k ∷ ks) h =
    let q' = (step q k).0 in
    append_assoc (takes c q k) (taken c q' ks) (items c (run q' ks).0)
    ∙ ap (λ xs. takes c q k ++ xs) (fifo c q' ks h.1)
    ∙ sym (append_assoc (takes c q k) (items c q') (accepted c q' ks))
    ∙ ap (λ xs. xs ++ accepted c q' ks) (undisturbed c q k h.0)
    ∙ append_assoc (items c q) (accepts c q k) (accepted c q' ks)
