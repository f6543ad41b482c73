-- ===== src/NodeSessions/Counts.antt =====
-- The number of nodes kept for each user against the number of the user's nodes (NodeSessionManager).
use moon_bot.Prelude.{
  ℕ, ◌+◌, ◌-◌, String, ◌≡◌, refl, ap, Bool, Option, none, some, [], ◌∷◌, arith, eq_iff,
  some-injective, inl, inr, Bool-cases, filter, length, ◌==◌, if◌then◌else◌,
}
use moon_bot.JsMap
use moon_bot.JsMap.{JsMap, IsMap, values}
use moon_bot.JsMap.Laws.{get-set, get-delete, IsMap-set, IsMap-delete}
use moon_bot.NodeSessions.{
  NodeSessions, NodeConnection, is_of, find_node, put_node, or_zero, count_node,
}
use moon_bot.NodeSessions.Upkeep.{uncount, remove_found}

abbrev pub nodes_of : String → JsMap NodeConnection → ℕ
nodes_of user m = length (filter (is_of user) (values m))

abbrev of_user : String → Option NodeConnection → ℕ
of_user user none = 0
of_user user (some n) = if is_of user n then 1 else 0

nodes_of-set :
    (user k : String) (n : NodeConnection) (m : JsMap NodeConnection)
    → nodes_of user (JsMap.set k n m) + of_user user (JsMap.get k m)
      ≡ nodes_of user m + of_user user (some n)
unfolding values JsMap.set JsMap.get
nodes_of-set user k n [] = ground arith
nodes_of-set user k n ((j, v) ∷ m) = ground (arith, nodes_of-set user k n m)

nodes_of-delete-none :
    (user k : String) (m : JsMap NodeConnection)
    → JsMap.get k m ≡ none
    → nodes_of user (JsMap.delete k m) ≡ nodes_of user m
unfolding values JsMap.delete JsMap.get
nodes_of-delete-none user k [] h = refl
nodes_of-delete-none user k ((j, v) ∷ m) h = ground (arith, nodes_of-delete-none user k m)

nodes_of-delete :
    (user k : String) (m : JsMap NodeConnection)
    → IsMap m
    → nodes_of user (JsMap.delete k m) + of_user user (JsMap.get k m) ≡ nodes_of user m
unfolding values JsMap.delete JsMap.get
nodes_of-delete user k [] u = ground arith
nodes_of-delete user k ((j, v) ∷ m) u =
    ground (arith, eq_iff j k, nodes_of-delete user k m u.1, nodes_of-delete-none user k m, u.0)

-- Each id once, and the count of each user right.
pub record IsCounted (s : NodeSessions) : Type 0 where
  pub unique : IsMap s.nodes
  pub right : (user : String) → or_zero (JsMap.get user s.user_node_count) ≡ nodes_of user s.nodes

counted :
    (u user : String) (s : NodeSessions)
    → or_zero (JsMap.get user (count_node u s).user_node_count)
      ≡ or_zero (JsMap.get user s.user_node_count) + (if u == user then 1 else 0)
counted u user s = ground (
  arith,
  eq_iff u user,
  get-set u user (or_zero (JsMap.get u s.user_node_count) + 1) s.user_node_count,
)

uncounted :
    (u user : String) (s : NodeSessions)
    → or_zero (JsMap.get user (uncount u s))
      ≡ or_zero (JsMap.get user s.user_node_count) - (if u == user then 1 else 0)
uncounted u user s = ground (
  arith,
  eq_iff u user,
  get-set u user (or_zero (JsMap.get u s.user_node_count) - 1) s.user_node_count,
  get-delete u user s.user_node_count,
)

pub put-IsCounted :
    (k : String) (n n' : NodeConnection) (s : NodeSessions)
    → JsMap.get k s.nodes ≡ some n
    → n'.user_id ≡ n.user_id
    → IsCounted s
    → IsCounted (put_node k n' s)
put-IsCounted k n n' s h e c = record {
  unique = IsMap-set k n' s.nodes c.unique;
  right = λ user. omega (
    arith,
    c.right user,
    nodes_of-set user k n' s.nodes,
    ap (of_user user) h,
    ap {B = ℕ} (λ u. if u == user then 1 else 0) e,
  );
}

pub add-IsCounted :
    (k : String) (n : NodeConnection) (s : NodeSessions)
    → JsMap.get k s.nodes ≡ none
    → IsCounted s
    → IsCounted (count_node n.user_id (put_node k n s))
add-IsCounted k n s h c = record {
  unique = IsMap-set k n s.nodes c.unique;
  right = λ user.
      rw (counted n.user_id user s)
        (omega (arith, c.right user, nodes_of-set user k n s.nodes, ap (of_user user) h));
}

pub removed-IsCounted :
    (k : String) (o : Option NodeConnection) (s : NodeSessions)
    → JsMap.get k s.nodes ≡ o
    → IsCounted s
    → IsCounted (remove_found k o s).0
unfolding remove_found
removed-IsCounted k none s h c = c
removed-IsCounted k (some n) s h c = record {
  unique = IsMap-delete k s.nodes c.unique;
  right = λ user.
      rw (uncounted n.user_id user s)
        (omega (arith, c.right user, nodes_of-delete user k s.nodes c.unique, ap (of_user user) h));
}

-- The node that is found stands in the map under its key.
pub found-get :
    (test : NodeConnection → Bool) (k : String) (n : NodeConnection) (m : JsMap NodeConnection)
    → IsMap m
    → find_node test m ≡ some (k, n)
    → JsMap.get k m ≡ some n
unfolding find_node JsMap.get
found-get test k n [] u = λ h. ground (arith, h)
found-get test k n ((j, v) ∷ m) u = elim (Bool-cases (test v)) [
  | inl t ↦ rw t (λ h.
      let e = some-injective (j, v) (k, n) h in
      ground (arith, eq_iff j k, ap (λ p. p.0) e, ap (λ p. p.1) e))
  | inr f ↦ rw f (λ h. ground (arith, eq_iff j k, u.0, found-get test k n m u.1 h))
]
