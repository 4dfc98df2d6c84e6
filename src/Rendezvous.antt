-- ===== src/Rendezvous.antt =====
-- Two threads that meet over a mailbox under a mutex, as in c_dispatch/src/engine.c and in
-- c_dispatch/client.c: a caller posts work, does its own share and waits; a worker that sleeps until
-- there is work does the other share and reports. A block under the mutex is one step, with the
-- `pthread_cond_signal` in it. A thread whose condition does not hold falls asleep in
-- `pthread_cond_wait`, and stays asleep until it is signalled; then it tests the condition again.
-- The worker's test at the top of its loop, after its report, is one step with the report. Wake-ups
-- without a signal are left out.
pub mod Runs
use hybrid_pqc_benchmarking.Prelude.{◌≡◌, Bool, true, false}

-- Where the caller stands.
pub data MainPc : Type 0 where
  entered : MainPc  -- before the work is posted
  posted : MainPc  -- before its own share
  waiting : MainPc  -- at the test of `work_done`
  blocked : MainPc  -- asleep in the wait for it
  returned : MainPc

-- Where the worker stands.
pub data WorkerPc : Type 0 where
  asleep : WorkerPc  -- asleep in the wait for `has_work`
  woken : WorkerPc  -- signalled, at the test of `has_work`
  awake : WorkerPc  -- before its share
  computed : WorkerPc  -- before completion is reported

-- The two flags, and what each block does: to the mailbox, to what the caller alone uses, and to
-- what the worker alone uses.
pub record Rendezvous (Box Mine Theirs : Type 0) : Type 0 where
  pub has_work : Box → Bool
  pub work_done : Box → Bool
  pub post : Box → Box
  pub own_share : Mine → Mine
  pub join : Box → Mine → Mine
  pub compute : Box → Theirs → Box × Theirs
  pub publish : Box → Box

-- How the blocks treat the flags.
pub record IsLawfulRendezvous {Box Mine Theirs : Type 0} (R : Rendezvous Box Mine Theirs)
    : Type 0 where
  pub has_work-post : (b : Box) → R.has_work (R.post b) ≡ true
  pub work_done-post : (b : Box) → R.work_done (R.post b) ≡ false
  pub work_done-compute : (b : Box) (t : Theirs) → R.work_done (R.compute b t).0 ≡ R.work_done b
  pub has_work-publish : (b : Box) → R.has_work (R.publish b) ≡ false
  pub work_done-publish : (b : Box) → R.work_done (R.publish b) ≡ true

pub record System (Box Mine Theirs : Type 0) : Type 0 where
  pub main : MainPc
  pub worker : WorkerPc
  pub box : Box
  pub mine : Mine
  pub theirs : Theirs

-- `pthread_cond_signal` wakes the thread that is asleep, and is lost where there is none.
abbrev pub signal_worker : WorkerPc → WorkerPc
signal_worker asleep = woken
signal_worker w = w

abbrev pub signal_main : MainPc → MainPc
signal_main blocked = waiting
signal_main m = m

module _ {Box Mine Theirs : Type 0} (R : Rendezvous Box Mine Theirs) where
  abbrev pub Sys : Type 0
  Sys = System Box Mine Theirs

  -- With the signal to the worker.
  abbrev pub do_post : Sys → Sys
  do_post s = record s { main = posted; box = R.post s.box; worker = signal_worker s.worker }

  abbrev pub do_share : Sys → Sys
  do_share s = record s { main = waiting; mine = R.own_share s.mine }

  abbrev pub do_join : Sys → Sys
  do_join s = record s { main = returned; mine = R.join s.box s.mine }

  abbrev pub do_block : Sys → Sys
  do_block s = record s { main = blocked }

  abbrev pub do_recheck : Sys → Sys
  do_recheck s = record s { worker = asleep }

  abbrev pub do_wake : Sys → Sys
  do_wake s = record s { worker = awake }

  abbrev pub do_compute : Sys → Sys
  do_compute s = record s {
    worker = computed;
    box = (R.compute s.box s.theirs).0;
    theirs = (R.compute s.box s.theirs).1;
  }

  -- With the signal to the caller.
  abbrev pub do_publish : Sys → Sys
  do_publish s = record s { worker = asleep; box = R.publish s.box; main = signal_main s.main }

  pub data Step (s t : Sys) : Type 0 where
    step_post : s.main ≡ entered → t ≡ do_post s → Step s t
    step_share : s.main ≡ posted → t ≡ do_share s → Step s t
    step_join : s.main ≡ waiting → R.work_done s.box ≡ true → t ≡ do_join s → Step s t
    step_block : s.main ≡ waiting → R.work_done s.box ≡ false → t ≡ do_block s → Step s t
    step_recheck : s.worker ≡ woken → R.has_work s.box ≡ false → t ≡ do_recheck s → Step s t
    step_wake : s.worker ≡ woken → R.has_work s.box ≡ true → t ≡ do_wake s → Step s t
    step_compute : s.worker ≡ awake → t ≡ do_compute s → Step s t
    step_publish : s.worker ≡ computed → t ≡ do_publish s → Step s t

  pub data Reach (s : Sys) : Sys → Type 0 where
    here : Reach s s
    next : {t u : Sys} → Reach s t → Step t u → Reach s u

  -- A call begins with the worker asleep.
  unfoldable pub begin : Box → Mine → Theirs → Sys
  begin b m t = record { main = entered; worker = asleep; box = b; mine = m; theirs = t }
