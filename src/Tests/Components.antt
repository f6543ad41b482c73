-- ===== src/Tests/Components.antt =====
-- The task registry, the channel queue and the session mapper on concrete inputs.
use mathlib.Core.Option
use moon_bot.Prelude.{◌≡◌, refl, none, some, List, [], ◌∷◌, ◌++◌, arith}
use moon_bot.JsMap
use moon_bot.Task.{failed, ChatMessage, Task}
use moon_bot.Registry
use moon_bot.Registry.{Registry, create, update_state, cleanup, get_stats}
use moon_bot.ChannelQueue
use moon_bot.ChannelQueue.{ChannelQueue, items}
use moon_bot.ChannelQueue.Refinement.{
  Call, enqueues, dequeues, Refines, run, run_contract, run-Refines, step, IsBounded,
}
use moon_bot.ChannelQueue.Fifo.{fifo, taken, accepted}
use moon_bot.SessionMapper
use moon_bot.SessionMapper.{SessionMapper}

abbrev hello : ChatMessage
hello = record { agent_id = "main"; text = "hello"; user_id = "u"; channel_id = "discord" }

abbrev one_task : Registry
one_task = create "t1" hello "c" 5 Registry.empty

abbrev done_task : Registry
done_task = (update_state "t1" failed none none 7 one_task).0

done_task_state : Option.map (λ (t : Task). t.state) (Registry.get "t1" done_task) ≡ some failed
unfolding update_state create Registry.get Registry.updated JsMap.get JsMap.set
    Registry.is_valid_transition
done_task_state = refl

abbrev failed_task : Task
failed_task = record {
  id = "t1";
  state = failed;
  channel_session_id = "c";
  message = hello;
  created_at = 5;
  updated_at = 7;
  result = none;
  error = none;
}

abbrev small : ChannelQueue
small = ChannelQueue.new 2

abbrev traffic : List Call
traffic =
    enqueues "a" "1"
    ∷ enqueues "b" "9"
    ∷ enqueues "a" "2"
    ∷ enqueues "a" "3"
    ∷ dequeues "a"
    ∷ enqueues "a" "4"
    ∷ []

traffic_result : items "a" (run small traffic).0 ≡ "2" ∷ "4" ∷ []
unfolding run step ChannelQueue.enqueue ChannelQueue.dequeue JsMap.get JsMap.set JsMap.has
    JsMap.delete
traffic_result = refl

small-Refines : Refines small (λ c. [])
unfolding JsMap.get
small-Refines = record { same = λ d. refl }

run-Refines_example :
    ((run small traffic).1 ≡ (run_contract 2 (λ c. []) traffic).1)
    × Refines (run small traffic).0 (run_contract 2 (λ c. []) traffic).0
run-Refines_example = run-Refines small (λ c. []) traffic small-Refines

small-IsBounded : IsBounded small
unfolding JsMap.get
small-IsBounded c = omega arith

fifo_example :
    taken "a" small traffic ++ items "a" (run small traffic).0
    ≡ items "a" small ++ accepted "a" small traffic
fifo_example = fifo "a" small traffic (refl, (refl, (refl, (refl, (refl, (refl, tt))))))

abbrev mapper : SessionMapper
mapper = SessionMapper.set "s1" "t1" 100 (SessionMapper.new 50)

mapper_unique : JsMap.IsMap mapper.entries
unfolding SessionMapper.set JsMap.set JsMap.get
mapper_unique = (refl, tt)
