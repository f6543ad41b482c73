-- ===== src/Tests/Processes.antt =====
-- Process sessions on concrete inputs.
use moon_bot.Prelude.{
  ◌+◌, ◌≤◌, String, ◌≡◌, refl, true, false, none, some, List, [], ◌∷◌, ◌++◌, arith, length,
}
use moon_bot.JsMap
use moon_bot.JsMap.Counting.{count}
use moon_bot.ProcessSessions.{
  ProcessSessions, ProcessSession, ManagerConfig, new, new_session, count_of, is_of, begin_create,
  finish_create, append_output, kill_session,
}
use moon_bot.ProcessSessions.Output.{lines, log_size}
use moon_bot.ProcessSessions.Kept.{IsEnd, output_kept}
use moon_bot.ProcessSessions.Counts.{IsCounted, race_undercounts}
use moon_bot.ProcessSessions.Steps.{
  Course, here, next, begins, finishes, quietly, kills, limit_kept,
}

abbrev one_each : ManagerConfig
one_each = record {
  max_output_lines = 2;
  max_log_size = 4;
  idle_timeout_ms = 1000;
  max_sessions_per_user = 1;
}

abbrev empty : ProcessSessions
empty = new one_each

abbrev shell : ProcessSession
shell = new_session "p1" "u" ("sh" ∷ []) "/work" false 1 "process 1" (some 41)

abbrev other_shell : ProcessSession
other_shell = new_session "p2" "u" ("sh" ∷ []) "/work" false 1 "process 2" (some 42)

output_kept_example :
    (length (append_output one_each 5 "a\nb\nc" shell).output_buffer ≤ 2)
    × IsEnd
        (append_output one_each 5 "a\nb\nc" shell).output_buffer
        (shell.output_buffer ++ lines "a\nb\nc")
    × (log_size (append_output one_each 5 "a\nb\nc" shell).full_log ≤ 4)
    × IsEnd (append_output one_each 5 "a\nb\nc" shell).full_log (shell.full_log ++ ("a\nb\nc" ∷ []))
    × ((kept : List String)
        → IsEnd kept (shell.full_log ++ ("a\nb\nc" ∷ []))
        → log_size kept ≤ 4
        → length kept ≤ length (append_output one_each 5 "a\nb\nc" shell).full_log)
output_kept_example = output_kept one_each 5 "a\nb\nc" shell (omega arith)

IsCounted-empty : IsCounted empty
unfolding JsMap.get JsMap.values
IsCounted-empty = record { unique = tt; named = λ id p e. ground arith; right = λ user. refl }

room : begin_create "u" empty ≡ some 0
unfolding begin_create JsMap.get
room = refl

first_new : JsMap.get "p1" empty.sessions ≡ none
unfolding JsMap.get
first_new = refl

second_new : JsMap.get "p2" (finish_create 0 shell empty).sessions ≡ none
unfolding finish_create JsMap.get JsMap.set
second_new = refl

race_undercounts_example :
    count (is_of "u") (finish_create 0 other_shell (finish_create 0 shell empty)).sessions
    ≡ count_of "u" (finish_create 0 other_shell (finish_create 0 shell empty)) + 1
race_undercounts_example =
    race_undercounts shell other_shell empty 0 IsCounted-empty room room refl first_new second_new

abbrev empty_course : Course
empty_course = record { manager = empty; waiting = [] }

abbrev one_killed : ProcessSessions
one_killed = (kill_session "p1" true "SIGTERM" 9 (finish_create 0 shell empty)).0

no_wait : JsMap.get "u" empty_course.waiting ≡ none
unfolding JsMap.get
no_wait = refl

captured_none : JsMap.get "u" (JsMap.set "u" 0 empty_course.waiting) ≡ some 0
unfolding JsMap.get JsMap.set
captured_none = refl

-- A process is asked for, and there, and is then killed.
limit_kept_example :
    (count_of "u" one_killed ≡ count (is_of "u") one_killed.sessions)
    × (count (is_of "u") one_killed.sessions ≤ one_killed.config.max_sessions_per_user)
limit_kept_example =
    limit_kept one_each
      (record {
        manager = one_killed;
        waiting = JsMap.delete "u" (JsMap.set "u" 0 empty_course.waiting);
      })
      "u"
      (next
        (next (next here (begins "u" 0 no_wait room)) (finishes shell 0 captured_none first_new))
        (quietly one_killed (kills "p1" true "SIGTERM" 9)))

-- Two sessions of a user whose limit is one.
past_the_limit :
    count (is_of "u") (finish_create 0 other_shell (finish_create 0 shell empty)).sessions ≡ 2
unfolding finish_create JsMap.get JsMap.set JsMap.values
past_the_limit = refl
