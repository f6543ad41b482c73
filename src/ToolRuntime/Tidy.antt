-- ===== src/ToolRuntime/Tidy.antt =====
-- The maps of ToolRuntime stay in order.
use moon_bot.Prelude.{
  ◌+◌, String, ◌≡◌, Bool, true, false, none, some, arith, length, eq_iff, subst, sym, ◌∙◌,
  some-injective,
}
use moon_bot.JsMap
use moon_bot.JsMap.{JsMap, IsMap}
use moon_bot.JsMap.Laws.{
  get-set, get-delete, has-eq-get, IsMap-set, IsMap-delete, IsMap-retain, size-set, size-delete,
  get-retain-some,
}
use moon_bot.ToolRuntime.{ToolInvocation, Call, awaits}
use moon_bot.ToolRuntime.Steps.{IsTidy}

module _ {m : JsMap ToolInvocation} {calls : JsMap Call} (t : IsTidy m calls) where
  -- An invocation is stored under its id; one that awaits an approval is not in flight.
  pub put-IsTidy :
      (i : ToolInvocation)
      → (awaits i ≡ true → JsMap.get i.id calls ≡ none)
      → IsTidy (JsMap.set i.id i m) calls
  put-IsTidy i out = record {
    unique_calls = t.unique_calls;
    unique = IsMap-set i.id i m t.unique;
    named = λ id j e. ground (arith, get-set i.id id i m, eq_iff i.id id, t.named id j);
    apart = λ id j e w. ground (arith, get-set i.id id i m, eq_iff i.id id, t.apart id j, out);
  }

  -- A call of an invocation that does not await an approval.
  pub hold-IsTidy :
      (id : String) (c : Call)
      → ((i : ToolInvocation) → JsMap.get id m ≡ some i → awaits i ≡ false)
      → IsTidy m (JsMap.set id c calls)
  hold-IsTidy id c quiet = record {
    unique_calls = IsMap-set id c calls t.unique_calls;
    unique = t.unique;
    named = t.named;
    apart = λ k j e w. ground (arith, get-set id k c calls, eq_iff id k, t.apart k j, quiet j);
  }

  pub release-IsTidy : (id : String) → IsTidy m (JsMap.delete id calls)
  release-IsTidy id = record {
    unique_calls = IsMap-delete id calls t.unique_calls;
    unique = t.unique;
    named = t.named;
    apart = λ k j e w. ground (arith, get-delete id k calls, t.apart k j);
  }

  pub retain-IsTidy : (keep : String → ToolInvocation → Bool) → IsTidy (JsMap.retain keep m) calls
  retain-IsTidy keep = record {
    unique_calls = t.unique_calls;
    unique = IsMap-retain keep m t.unique;
    named = λ id j e. t.named id j (get-retain-some keep id m j t.unique e).0;
    apart = λ id j e w. t.apart id j (get-retain-some keep id m j t.unique e).0 w;
  }

pub set-same :
    (i : ToolInvocation) (m : JsMap ToolInvocation) → JsMap.get i.id (JsMap.set i.id i m) ≡ some i
set-same i m = ground (arith, get-set i.id i.id i m, eq_iff i.id i.id)

pub set-quiet :
    (i j : ToolInvocation) (m : JsMap ToolInvocation)
    → awaits i ≡ false
    → JsMap.get i.id (JsMap.set i.id i m) ≡ some j
    → awaits j ≡ false
set-quiet i j m quiet e =
    subst (λ k. awaits k ≡ false) (some-injective i j (sym (set-same i m) ∙ e)) quiet

pub flying-hold :
    (id : String) (c : Call) (calls : JsMap Call)
    → JsMap.get id calls ≡ none
    → length (JsMap.set id c calls) ≡ length calls + 1
flying-hold id c calls out = ground (arith, size-set id c calls, has-eq-get id calls)

pub flying-keep :
    (id : String) (c d : Call) (calls : JsMap Call)
    → JsMap.get id calls ≡ some d
    → length (JsMap.set id c calls) ≡ length calls
flying-keep id c d calls out = ground (arith, size-set id c calls, has-eq-get id calls)

pub flying-release :
    (id : String) (d : Call) (calls : JsMap Call)
    → IsMap calls
    → JsMap.get id calls ≡ some d
    → length calls ≡ length (JsMap.delete id calls) + 1
flying-release id d calls u out = ground (arith, size-delete id calls u, has-eq-get id calls)
