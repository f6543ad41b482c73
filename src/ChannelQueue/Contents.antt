-- ===== src/ChannelQueue/Contents.antt =====
-- What each operation of PerChannelQueue does to the contents of every channel.
use moon_bot.Prelude.{
  String, ◌≡◌, refl, ap, inl, inr, none, some, List, [], ◌∷◌, ◌++◌, arith, eq_iff, ltb, length,
  ◌==◌, if◌then◌else◌, Bool-cases, Option-cases,
}
use moon_bot.JsMap
use moon_bot.JsMap.{JsMap, set, delete, has}
use moon_bot.JsMap.Laws.{get-set, get-delete, has-eq-get}
use moon_bot.ChannelQueue.{
  ChannelQueue, items, or_nil, head?, tail, enqueue, dequeue, remove, without, clear, stored,
  opened,
}

items-opened : (c d : String) (q : ChannelQueue) → or_nil (JsMap.get d (opened c q)) ≡ items d q
items-opened c d q =
    let fresh : List String = [] in
    ground (arith, eq_iff c d, has-eq-get c q.queues, get-set c d fresh q.queues)

get-stored :
    (c d : String) (xs : List String) (m : JsMap (List String))
    → or_nil (JsMap.get d (stored c xs m)) ≡ (if c == d then xs else or_nil (JsMap.get d m))
get-stored c d [] m = rw get-delete (ground arith)
get-stored c d (x ∷ xs) m = rw get-set (ground arith)

module _ (c d : String) (q : ChannelQueue) where
  -- The contents of every channel `d` after a call on channel `c`.
  pub items-enqueue :
      (x : String)
      → items d (enqueue c x q).0 ≡ (
          if ltb (length (items c q)) q.max_size_per_channel
          then (if c == d then items c q ++ x ∷ [] else items d q)
          else items d q)
  unfolding enqueue
  items-enqueue x = ground (
    arith,
    items-opened c c q,
    items-opened c d q,
    get-set c d (or_nil (JsMap.get c (opened c q)) ++ x ∷ []) (opened c q),
  )

  pub items-dequeue : items d (dequeue c q).0 ≡ (if c == d then tail (items c q) else items d q)
  unfolding dequeue
  items-dequeue = ground (arith, eq_iff c d, get-stored c d (tail (items c q)) q.queues)

  pub items-remove :
      (x : String)
      → items d (remove c x q).0 ≡ elim (without x (items c q)) [
        | none ↦ items d q
        | some xs ↦ if c == d then xs else items d q
      ]
  unfolding remove
  items-remove x = elim (Option-cases (without x (items c q))) [
    | inl e ↦ rw (e, remove) (ground arith)
    | inr (xs, e) ↦ rw (e, remove) (get-stored c d xs q.queues)
  ]

  pub items-clear : items d (clear c q).0 ≡ (if c == d then [] else items d q)
  unfolding clear
  items-clear = rw get-delete (ground arith)

module _ (c : String) (q : ChannelQueue) where
  pub accepted-enqueue :
      (x : String) → (enqueue c x q).1 ≡ ltb (length (items c q)) q.max_size_per_channel
  unfolding enqueue
  accepted-enqueue x = ground (arith, items-opened c c q)

  pub result-dequeue : (dequeue c q).1 ≡ head? (items c q)
  unfolding dequeue
  result-dequeue = ground arith

-- The place that `indexOf` finds: the first one.
pub without_splits :
    (x : String) (xs ys : List String)
    → without x xs ≡ some ys
    → (before : List String) × (after : List String) × (xs ≡ before ++ x ∷ after)
      × (ys ≡ before ++ after)
      × (without x before ≡ none)
unfolding without
without_splits x [] ys h = cc
without_splits x (y ∷ xs) ys h = elim (Bool-cases (y == x)) [
  | inl e ↦ ([], xs, ground (arith, eq_iff y x), ground arith, refl)
  | inr e ↦ elim (Option-cases (without x xs)) [
    | inl n ↦ ground arith
    | inr (zs, n) ↦
        let (before, after, p, q, r) = without_splits x xs zs n in
        (y ∷ before, after, ap (λ l. y ∷ l) p, ground arith, ground arith)
  ]
]
