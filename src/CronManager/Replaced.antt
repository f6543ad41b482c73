-- ===== src/CronManager/Replaced.antt =====
-- What becomes of a running job that another of its id replaces (CronManager).
use moon_bot.Prelude.{
  ℕ, [], ◌∷◌, ◌++◌, false≢true, ◌≡◌, refl, String, Bool, true, false, Option, none, some, arith, ap,
  ◌∙◌, eq_iff, is_some, if◌then◌else◌,
}
use moon_bot.JsMap
use moon_bot.JsMap.{JsMap}
use moon_bot.JsMap.Laws.{get-set, get-set_self, has-set, has-eq-get}
use moon_bot.CronManager
use moon_bot.CronManager.{
  CronManager, CronJob, Timer, is_timer, clear, put_timer, start, start_found, started,
  schedule_next_run, parse_interval, add, stop, stop_timer, remove, fire, daily, without,
}

picked {ℓ} : {A : Type ℓ} (b : Bool) (x y : A) → b ≡ true → (if b then x else y) ≡ x
picked true x y h = refl
picked false x y h = absurd (false≢true h)

same_either {ℓ} : {A : Type ℓ} (b : Bool) (x y : A) → x ≡ y → (if b then x else y) ≡ y
same_either true x y h = h
same_either false x y h = refl

module _ (set_hours : ℕ → ℕ → ℕ → ℕ) (next_day : ℕ → ℕ) where
  start_found-known :
      (o : Option CronJob) (id : String) (handle now : ℕ) (m : CronManager)
      → JsMap.has id m.intervals ≡ true
      → started set_hours next_day (start_found set_hours next_day o id handle now m) m ≡ m
  start_found-known none id handle now m h = refl
  start_found-known (some job) id handle now m h = rw h refl

  start_found-new :
      (o : Option CronJob) (job : CronJob) (id : String) (handle now : ℕ) (m : CronManager)
      → o ≡ some job
      → JsMap.has id m.intervals ≡ false
      → started set_hours next_day (start_found set_hours next_day o id handle now m) m
        ≡ schedule_next_run set_hours next_day id job handle now m
  start_found-new o job id handle now m e h = rw (e, h) refl

  -- A job that is enabled and does not run yet is scheduled, any that runs is only put on the list.
  add-new :
      (job : CronJob) (handle now : ℕ) (m : CronManager)
      → job.enabled ≡ true
      → JsMap.get job.id m.intervals ≡ none
      → add set_hours next_day job handle now m
        ≡ schedule_next_run set_hours next_day job.id job handle now
            (record m { jobs = JsMap.set job.id job m.jobs })
  unfolding add start
  add-new job handle now m on free =
      let with_job : CronManager = record m { jobs = JsMap.set job.id job m.jobs } in
      picked job.enabled _ with_job on
      ∙ start_found-new (JsMap.get job.id with_job.jobs) job job.id handle now with_job
          (get-set_self job.id job m.jobs) (has-eq-get job.id m.intervals ∙ ap is_some free)

  add-known :
      (job : CronJob) (handle now : ℕ) (m : CronManager)
      → JsMap.has job.id m.intervals ≡ true
      → add set_hours next_day job handle now m ≡ record m { jobs = JsMap.set job.id job m.jobs }
  unfolding add start
  add-known job handle now m h =
      let with_job : CronManager = record m { jobs = JsMap.set job.id job m.jobs } in
      same_either job.enabled _ with_job
        (start_found-known (JsMap.get job.id with_job.jobs) job.id handle now with_job h)

  abbrev pub first_run : CronJob → ℕ → ℕ → Timer
  first_run job handle now = record {
    handle = handle;
    job_id = job.id;
    job = job;
    delay = parse_interval set_hours next_day job.schedule now;
    repeats = false;
  }

  -- The manager after a job that does not run is added, and then another of its id.
  both_added :
      (a b : CronJob) (handle now other later : ℕ) (m : CronManager)
      → a.id ≡ b.id
      → a.enabled ≡ true
      → JsMap.get a.id m.intervals ≡ none
      → add set_hours next_day b other later (add set_hours next_day a handle now m) ≡ record m {
        jobs = JsMap.set b.id b (JsMap.set a.id a m.jobs);
        intervals = JsMap.set a.id handle m.intervals;
        timers = m.timers ++ (first_run a handle now ∷ []);
      }
  both_added a b handle now other later m e on free =
      let runs : JsMap.has b.id (JsMap.set a.id handle m.intervals) ≡ true =
        ground (arith, has-set a.id b.id handle m.intervals, eq_iff a.id b.id) in
      ap (add set_hours next_day b other later) (add-new a handle now m on free)
      ∙ add-known b other later
          (schedule_next_run set_hours next_day a.id a handle now
            (record m { jobs = JsMap.set a.id a m.jobs }))
          runs

  -- If a job that is enabled and does not run yet is added and then another of the same id, the
  -- second is the one on the list, but the only new timer, the one kept under the id, is that of
  -- the first: it runs the first job at the time of the first job, and is then replaced by one that
  -- runs the first job each day.
  pub replaced :
      (a b : CronJob) (handle now other later next : ℕ) (m : CronManager)
      → a.id ≡ b.id
      → a.enabled ≡ true
      → JsMap.get a.id m.intervals ≡ none
      → let o = add set_hours next_day b other later (add set_hours next_day a handle now m) in
        let t = first_run a handle now in
        (CronManager.get b.id o ≡ some b)
        × (JsMap.get b.id o.intervals ≡ some handle)
        × (o.timers ≡ m.timers ++ (t ∷ []))
        × ((fire t next o).timers ≡ clear handle (m.timers ++ (t ∷ [])) ++ (daily t next ∷ []))
  unfolding fire
  replaced a b handle now other later next m e on free =
      let o = add set_hours next_day b other later (add set_hours next_day a handle now m) in
      let both = both_added a b handle now other later m e on free in
      (
        ap (CronManager.get b.id) both ∙ get-set_self b.id b (JsMap.set a.id a m.jobs),
        ap (λ (k : CronManager). JsMap.get b.id k.intervals) both
            ∙ ground (arith, get-set a.id b.id handle m.intervals, eq_iff a.id b.id),
        ap (λ (k : CronManager). k.timers) both,
        ap (λ (k : CronManager). (fire (first_run a handle now) next k).timers) both,
      )
