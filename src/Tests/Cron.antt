-- ===== src/Tests/Cron.antt =====
-- The cron manager on concrete inputs.
use moon_bot.Prelude.{[], ◌∷◌, ◌++◌, ℕ, ◌+◌, ◌*◌, ◌≡◌, refl, none, some, true}
use moon_bot.JsMap
use moon_bot.Text.{codes, number_from}
use moon_bot.CronManager
use moon_bot.CronManager.{
  clear, CronManager, CronJob, Timer, parse_interval, start, add, stop, remove, fire, daily,
}
use moon_bot.CronManager.Timers.{IsKept, IsQuiet, here, next, adds, silent}
use moon_bot.CronManager.Replaced.{first_run, replaced}

-- Minutes of a day, in days of one thousand four hundred and forty.
abbrev at_time : ℕ → ℕ → ℕ → ℕ
at_time now h m = h * 60 + m

abbrev a_day_on : ℕ → ℕ
a_day_on t = t + 1440

abbrev greet : CronJob
greet = record {
  id = "greet";
  agent_id = "main";
  schedule = codes "at 09:30";
  task = record { agent_id = ""; text = "hello"; user_id = ""; channel_id = "" };
  enabled = true;
}

abbrev greet_later : CronJob
greet_later = record greet { schedule = codes "10:00" }

waits : parse_interval at_time a_day_on (codes "at 09:30") 600 ≡ 1410
unfolding parse_interval CronManager.time_of number_from
waits = refl

abbrev empty : CronManager
empty = CronManager.new none

abbrev greeting : CronManager
greeting = add at_time a_day_on greet 1 600 empty

silent_example :
    IsKept greeting
    × IsQuiet "greet" (stop "greet" greeting)
    × IsQuiet "greet" (remove "greet" greeting)
silent_example = silent at_time a_day_on none greeting "greet" (next here (adds greet 1 600))

nothing_runs : JsMap.get "greet" empty.intervals ≡ none
unfolding JsMap.get
nothing_runs = refl

abbrev first_greeting : Timer
first_greeting = first_run at_time a_day_on greet 1 600

abbrev replaced_greeting : CronManager
replaced_greeting = add at_time a_day_on greet_later 2 610 greeting

replaced_example :
    (CronManager.get "greet" replaced_greeting ≡ some greet_later)
    × (JsMap.get "greet" replaced_greeting.intervals ≡ some 1)
    × (replaced_greeting.timers ≡ first_greeting ∷ [])
    × ((fire first_greeting 3 replaced_greeting).timers
        ≡ clear 1 (first_greeting ∷ []) ++ (daily first_greeting 3 ∷ []))
replaced_example =
    replaced at_time a_day_on greet greet_later 1 600 2 610 3 empty refl refl nothing_runs
