-- ===== src/NodesTool/Handing.antt =====
-- Which commands nodes.run hands to a node.
use moon_bot.Prelude.{
  ◌≡◌, refl, String, Bool, true, false, ◌&&◌, Option, none, some, List, [], ◌∷◌, arith, ◌↔◌, ◌==◌,
  eq_iff, filter, sym, ◌∙◌, ap, some-injective, Bool-cases, inl, inr, true≢false,
}
use moon_bot.Text.{contains}
use moon_bot.JsMap
use moon_bot.JsMap.{JsMap, values}
use moon_bot.ToolRuntime.ApprovalManager.{Command}
use moon_bot.NodeSessions.{NodeSessions, NodeConnection, is_paired, is_of, get_nodes_for_user}
use moon_bot.NodeSessions.Upkeep.{first_where, own_paired, selected, select_node_for_command}
use moon_bot.NodeCommandValidator.{
  NodeCommandValidator, Problem, ValidationResult, valid, invalid, threw, validate_arguments,
  validate_cwd, validate_env,
}
use moon_bot.NodeCommandValidator.Validity.{
  IsHarmless, IsPermitted, env_iff, arguments_iff, cwd_iff,
}
use moon_bot.NodesTool.{
  Refusal, Outcome, refused, handed, available, on_selected, checked, env_checked, cwd_checked, run,
}

abbrev pub IsOwn : String → NodeConnection → Type 0
IsOwn user n = (n.user_id ≡ user) × (is_paired n.status ≡ true)

node_of : Outcome → NodeConnection → NodeConnection
node_of (handed n) m = n
node_of (refused r) m = m

pub handed-injective : (m n : NodeConnection) → handed m ≡ handed n → m ≡ n
unfolding node_of
handed-injective m n e = ap (λ o. node_of o m) e

head_of : NodeConnection → List NodeConnection → NodeConnection
head_of m [] = m
head_of m (n ∷ ns) = n

head-injective : (m n : NodeConnection) (ms ns : List NodeConnection) → m ∷ ms ≡ n ∷ ns → m ≡ n
unfolding head_of
head-injective m n ms ns e = ap (head_of m) e

-- The first node of a user that is found paired is the user's and paired.
first_of_paired :
    (user : String) (n : NodeConnection) (ns rest : List NodeConnection)
    → filter (λ m. is_paired m.status) (filter (is_of user) ns) ≡ n ∷ rest
    → IsOwn user n
first_of_paired user n [] rest e = ground arith
first_of_paired user n (m ∷ ns) rest e = elim (Bool-cases (is_of user m)) [
  | inr is_not ↦ first_of_paired user n ns rest (rw is_not at e)
  | inl is_so ↦ elim (Bool-cases (is_paired m.status)) [
    | inl p ↦
        let same = head-injective m n _ rest (rw (is_so, p) at e) in
        rw (sym same) ((eq_iff m.user_id user).0 is_so, p)
    | inr is_not ↦ first_of_paired user n ns rest (rw (is_so, is_not) at e)
  ]
]

own_paired-IsOwn :
    (user : String) (o : Option NodeConnection) (n : NodeConnection)
    → own_paired user o ≡ some n
    → IsOwn user n
own_paired-IsOwn user none n e = ground arith
own_paired-IsOwn user (some m) n e = ground (arith, eq_iff m.user_id user, some-injective m n)

selected-IsOwn :
    (user : String) (id : Option String) (first n : NodeConnection) (s : NodeSessions)
    → IsOwn user first
    → selected user id first s ≡ some n
    → IsOwn user n
selected-IsOwn user none first n s mine e = rw (some-injective first n e) at mine
selected-IsOwn user (some id) first n s mine e = elim (Bool-cases (id == "")) [
  | inl is_so ↦ rw (some-injective first n (rw is_so at e)) at mine
  | inr is_not ↦ own_paired-IsOwn user (JsMap.get id s.nodes) n (rw is_not at e)
]

choice-IsOwn :
    (user : String) (id : Option String) (n : NodeConnection) (s : NodeSessions)
    (ns : List NodeConnection)
    → ((first : NodeConnection) (rest : List NodeConnection) → ns ≡ first ∷ rest → IsOwn user first)
    → (elim ns [ [] ↦ none | first ∷ _ ↦ selected user id first s ]) ≡ some n
    → IsOwn user n
choice-IsOwn user id n s [] h e = ground arith
choice-IsOwn user id n s (first ∷ rest) h e = selected-IsOwn user id first n s (h first rest refl) e

pub select-IsOwn :
    (user : String) (id : Option String) (n : NodeConnection) (s : NodeSessions)
    → select_node_for_command user id s ≡ some n
    → IsOwn user n
unfolding select_node_for_command get_nodes_for_user
select-IsOwn user id n s e =
    choice-IsOwn user id n s _ (λ first rest. first_of_paired user first (values s.nodes) rest) e

pub first_where-own :
    (user : String) (n : NodeConnection) (ns : List NodeConnection)
    → first_where
        (λ m. m.capabilities.screen_capture && is_paired m.status)
        (filter (is_of user) ns)
      ≡ some n
    → n.user_id ≡ user
unfolding first_where
first_where-own user n [] e = ground arith
first_where-own user n (m ∷ ns) e =
    ground (arith, eq_iff m.user_id user, some-injective m n, first_where-own user n ns)

pub available_iff :
    (capable : Bool) (m n : NodeConnection)
    → (available capable m ≡ handed n) ↔ ((m ≡ n) × (capable ≡ true) × (is_paired m.status ≡ true))
available_iff capable m n =
    (λ h. ground (arith, handed-injective m n), λ (e, c, p). rw (c, p) (ap handed e))

on_selected_iff :
    (o : Option NodeConnection) (n : NodeConnection)
    → (on_selected o ≡ handed n)
      ↔ ((o ≡ some n) × (n.capabilities.command_exec ≡ true) × (is_paired n.status ≡ true))
on_selected_iff none n = (λ h. ground arith, λ h. ground arith)
on_selected_iff (some m) n =
    let inner = available_iff m.capabilities.command_exec m n in
    (
      λ h. let (e, c, p) = inner.0 h in (ap some e, rw e at c, rw e at p),
      λ (e, c, p).
          let same = some-injective m n e in inner.1 (same, rw (sym same) at c, rw (sym same) at p),
    )

checked_iff :
    (refusal : Problem → Refusal) (r : ValidationResult) (next : Outcome) (n : NodeConnection)
    → (checked refusal r next ≡ handed n) ↔ ((r ≡ valid) × (next ≡ handed n))
checked_iff refusal valid next n = (λ h. (refl, h), λ h. h.1)
checked_iff refusal (invalid p) next n = (λ h. ground arith, λ h. ground arith)
checked_iff refusal threw next n = (λ h. ground arith, λ h. ground arith)

abbrev pub IsHarmlessIfGiven : Option (JsMap String) → Type 0
IsHarmlessIfGiven none = Unit
IsHarmlessIfGiven (some env) = IsHarmless env

-- A directory that is empty counts as none.
abbrev pub IsPlainIfGiven : Option String → Type 0
IsPlainIfGiven none = Unit
IsPlainIfGiven (some cwd) = (cwd == "" ≡ false) → contains ".." cwd ≡ false

env_checked_iff :
    (o : Option (JsMap String)) (next : Outcome) (n : NodeConnection)
    → (env_checked o next ≡ handed n) ↔ (IsHarmlessIfGiven o × (next ≡ handed n))
env_checked_iff none next n = (λ h. (tt, h), λ h. h.1)
env_checked_iff (some env) next n =
    let outer = checked_iff Refusal.invalid_env (validate_env env) next n in
    let inner = env_iff env in
    (λ h. (inner.0 (outer.0 h).0, (outer.0 h).1), λ h. outer.1 (inner.1 h.0, h.1))

module _ (matches : String → String → Option Bool) (base : String → String)
    (normalize : String → String) (resolve : String → String → String) where
  cwd_checked_iff :
      (o : Option String) (next : Outcome) (n : NodeConnection)
      → (cwd_checked matches base normalize resolve o next ≡ handed n)
        ↔ (IsPlainIfGiven o × (next ≡ handed n))
  cwd_checked_iff none next n = (λ h. (tt, h), λ h. h.1)
  cwd_checked_iff (some cwd) next n =
      let outer =
        checked_iff Refusal.invalid_cwd (validate_cwd matches base normalize resolve cwd none) next
          n in
      let inner = cwd_iff matches base normalize resolve cwd in
      elim (Bool-cases (cwd == "")) [
        | inl is_so ↦ (
          λ h. (λ not_so. absurd (true≢false (sym is_so ∙ not_so)), rw is_so at h),
          λ h. rw is_so h.1,
        )
        | inr is_not ↦ (
          λ h. let (good, rest) = outer.0 (rw is_not at h) in (λ not_so. inner.0 good, rest),
          λ h. rw is_not (outer.1 (inner.1 (h.0 is_not), h.1)),
        )
      ]

  -- nodes.run turns to a node exactly if the command is not too long, no blocked pattern is found
  -- in it and the base name of its first word is allowed; the directory, if one is given, has no
  -- ".."; the environment, if one is given, sets none of the dangerous keys and has no suspicious
  -- value; and the node is the one selected for the user, can run commands, is the user's and is
  -- paired.
  pub run_iff :
      (user : String) (id : Option String) (command : Command) (cwd : Option String)
      (env : Option (JsMap String)) (v : NodeCommandValidator) (s : NodeSessions)
      (n : NodeConnection)
      → (run matches base normalize resolve user id command cwd env v s ≡ handed n) ↔ (
          IsPermitted matches base normalize resolve command v
          × IsPlainIfGiven cwd
          × IsHarmlessIfGiven env
          × (select_node_for_command user id s ≡ some n)
          × (n.capabilities.command_exec ≡ true)
          × IsOwn user n)
  unfolding run
  run_iff user id command cwd env v s n =
      let first =
        checked_iff Refusal.command_blocked
          (validate_arguments matches base normalize resolve command v) _ n in
      let second = cwd_checked_iff cwd _ n in
      let third = env_checked_iff env _ n in
      let last = on_selected_iff (select_node_for_command user id s) n in
      let permitted = arguments_iff matches base normalize resolve command v in
      (
        λ h.
            let (good, h1) = first.0 h in
            let (plain, h2) = second.0 h1 in
            let (harmless, h3) = third.0 h2 in
            let (chosen, capable, p) = last.0 h3 in
            (permitted.0 good, plain, harmless, chosen, capable, select-IsOwn user id n s chosen),
        λ (good, plain, harmless, chosen, capable, mine). first.1 (
          permitted.1 good,
          second.1 (plain, third.1 (harmless, last.1 (chosen, capable, mine.1))),
        ),
      )
