-- ===== src/Rendezvous/Runs.antt =====
-- Every interleaving of a call ends, and each ends in the same state.
use hybrid_pqc_benchmarking.Prelude.{
  ℕ, suc, ◌+◌, ◌≤◌, ◌≡◌, ◌≢◌, refl, ap, ◌∙◌, sym, Bool, true, false, arith, ◌⊎◌, inl, inr,
}
use hybrid_pqc_benchmarking.Rendezvous.{
  MainPc, entered, posted, waiting, blocked, returned, WorkerPc, asleep, woken, awake, computed,
  Rendezvous, signal_main, IsLawfulRendezvous, System, do_post, do_share, do_join, do_block,
  do_wake, do_compute, do_publish, Step, step_post, step_share, step_join, step_block, step_recheck,
  step_wake, step_compute, step_publish, Reach, here, next, begin,
}

-- A call from a mailbox without work.
module _ {Box Mine Theirs : Type 0} (R : Rendezvous Box Mine Theirs) (L : IsLawfulRendezvous R)
    (box : Box) (mine : Mine) (theirs : Theirs) (quiet : R.has_work box ≡ false) where
  abbrev S : Type 0
  S = System Box Mine Theirs

  abbrev box1 : Box
  box1 = R.post box

  abbrev box2 : Box
  box2 = (R.compute box1 theirs).0

  abbrev box3 : Box
  box3 = R.publish box2

  abbrev theirs2 : Theirs
  theirs2 = (R.compute box1 theirs).1

  -- How far the worker has come with the posted work.
  data Stage : Type 0 where
    pending running finished reported : Stage

  abbrev worker_at : Stage → WorkerPc
  worker_at pending = woken
  worker_at running = awake
  worker_at finished = computed
  worker_at reported = asleep

  abbrev box_at : Stage → Box
  box_at pending = box1
  box_at running = box1
  box_at finished = box2
  box_at reported = box3

  abbrev theirs_at : Stage → Theirs
  theirs_at pending = theirs
  theirs_at running = theirs
  theirs_at finished = theirs2
  theirs_at reported = theirs2

  abbrev mine_at : MainPc → Mine
  mine_at entered = mine
  mine_at posted = mine
  mine_at waiting = R.own_share mine
  mine_at blocked = R.own_share mine
  mine_at returned = R.join box3 (R.own_share mine)

  abbrev state_at : MainPc → Stage → S
  state_at m g = record {
    main = m;
    worker = worker_at g;
    box = box_at g;
    mine = mine_at m;
    theirs = theirs_at g;
  }

  -- What the call leaves behind, whatever the interleaving: both shares done, the report joined, and
  -- a worker that is asleep with nothing to do.
  abbrev pub last_state : System Box Mine Theirs
  last_state = record {
    main = returned;
    worker = asleep;
    box = R.publish (R.compute (R.post box) theirs).0;
    mine = R.join (R.publish (R.compute (R.post box) theirs).0) (R.own_share mine);
    theirs = (R.compute (R.post box) theirs).1;
  }

  -- The main thread returns only after the report, and is not asleep then.
  abbrev Fits : MainPc → Stage → Type 0
  Fits entered g = ⊥
  Fits posted g = Unit
  Fits waiting g = Unit
  Fits blocked g = g ≢ reported
  Fits returned g = g ≡ reported

  abbrev main_done : MainPc → ℕ
  main_done entered = 0
  main_done posted = 1
  main_done waiting = 2
  main_done blocked = 3
  main_done returned = 3

  abbrev stage_done : Stage → ℕ
  stage_done pending = 0
  stage_done running = 1
  stage_done finished = 2
  stage_done reported = 4

  -- The states that a call goes through, after `n` steps at most so many.
  data Inv (n : ℕ) (s : S) : Type 0 where
    at_entry : n ≡ 0 → s ≡ begin R box mine theirs → Inv n s
    during :
        (m : MainPc) (g : Stage)
        → Fits m g
        → n ≤ main_done m + stage_done g
        → s ≡ state_at m g
        → Inv n s

  main_bound : (m : MainPc) → main_done m ≤ 3
  main_bound entered = omega arith
  main_bound posted = omega arith
  main_bound waiting = omega arith
  main_bound blocked = omega arith
  main_bound returned = omega arith

  stage_bound : (g : Stage) → stage_done g ≤ 4
  stage_bound pending = omega arith
  stage_bound running = omega arith
  stage_bound finished = omega arith
  stage_bound reported = omega arith

  Fits-other : (m : MainPc) (g g' : Stage) → Fits m g → g ≢ reported → g' ≢ reported → Fits m g'
  Fits-other entered g g' f n k = f
  Fits-other posted g g' f n k = tt
  Fits-other waiting g g' f n k = tt
  Fits-other blocked g g' f n k = k
  Fits-other returned g g' f n k = absurd (n f)

  -- The report wakes a caller that is asleep.
  Fits-signal : (m : MainPc) (g : Stage) → Fits m g → g ≢ reported → Fits (signal_main m) reported
  Fits-signal entered g f n = f
  Fits-signal posted g f n = tt
  Fits-signal waiting g f n = tt
  Fits-signal blocked g f n = tt
  Fits-signal returned g f n = refl

  signal-done : (m : MainPc) → main_done m + 3 ≤ main_done (signal_main m) + 4
  signal-done entered = omega arith
  signal-done posted = omega arith
  signal-done waiting = omega arith
  signal-done blocked = omega arith
  signal-done returned = omega arith

  box1_flags : (R.has_work box1 ≡ true) × (R.work_done box1 ≡ false)
  box1_flags = (L.has_work-post box, L.work_done-post box)

  box2-work_done : R.work_done box2 ≡ false
  box2-work_done = L.work_done-compute box1 theirs ∙ box1_flags.1

  box3_flags : (R.has_work box3 ≡ false) × (R.work_done box3 ≡ true)
  box3_flags = (L.has_work-publish box2, L.work_done-publish box2)

  share-state_at : (g : Stage) → (do_share R) (state_at posted g) ≡ state_at waiting g
  share-state_at g = refl

  join-fits : (g : Stage) → R.work_done (box_at g) ≡ true → g ≡ reported
  join-fits pending h = cc (box1_flags.1)
  join-fits running h = cc (box1_flags.1)
  join-fits finished h = cc box2-work_done
  join-fits reported h = refl

  join-state_at :
      (g : Stage) → g ≡ reported → (do_join R) (state_at waiting g) ≡ state_at returned g
  join-state_at g e = rw e

  block-fits : (g : Stage) → R.work_done (box_at g) ≡ false → g ≢ reported
  block-fits pending h = λ e. cc
  block-fits running h = λ e. cc
  block-fits finished h = λ e. cc
  block-fits reported h = λ e. cc (box3_flags.1)

  recheck-fits : (g : Stage) → worker_at g ≡ woken → R.has_work (box_at g) ≢ false
  recheck-fits pending h k = cc (box1_flags.0)
  recheck-fits running h k = cc
  recheck-fits finished h k = cc
  recheck-fits reported h k = cc

  wake-fits : (g : Stage) → worker_at g ≡ woken → R.has_work (box_at g) ≡ true → g ≡ pending
  wake-fits pending h k = refl
  wake-fits running h k = cc
  wake-fits finished h k = cc
  wake-fits reported h k = cc (box3_flags.0)

  compute-fits : (g : Stage) → worker_at g ≡ awake → g ≡ running
  compute-fits pending h = cc
  compute-fits running h = refl
  compute-fits finished h = cc
  compute-fits reported h = cc

  publish-fits : (g : Stage) → worker_at g ≡ computed → g ≡ finished
  publish-fits pending h = cc
  publish-fits running h = cc
  publish-fits finished h = refl
  publish-fits reported h = cc

  wake-state_at :
      (m : MainPc) (g : Stage) → g ≡ pending → (do_wake R) (state_at m g) ≡ state_at m running
  wake-state_at m g e = rw e

  compute-state_at :
      (m : MainPc) (g : Stage) → g ≡ running → (do_compute R) (state_at m g) ≡ state_at m finished
  compute-state_at m g e = rw e

  mine-signal : (m : MainPc) → mine_at m ≡ mine_at (signal_main m)
  mine-signal entered = refl
  mine-signal posted = refl
  mine-signal waiting = refl
  mine-signal blocked = refl
  mine-signal returned = refl

  publish-state_at :
      (m : MainPc) (g : Stage)
      → g ≡ finished
      → (do_publish R) (state_at m g) ≡ state_at (signal_main m) reported
  publish-state_at m g e = rw (e, mine-signal m) refl

  abbrev main_of : S → MainPc
  main_of s = s.main

  abbrev worker_of : S → WorkerPc
  worker_of s = s.worker

  abbrev work_done_of : S → Bool
  work_done_of s = R.work_done s.box

  abbrev has_work_of : S → Bool
  has_work_of s = R.has_work s.box

  Step-Inv : {n : ℕ} {s t : S} → Step R s t → Inv n s → Inv (suc n) t
  unfolding begin
  Step-Inv (step_post m e) (at_entry k q) =
      during posted pending tt (omega arith) (e ∙ ap (do_post R) q)
  Step-Inv (step_post m e) (during entered g f k q) = absurd f
  Step-Inv (step_post m e) (during posted g f k q) = cc
  Step-Inv (step_post m e) (during waiting g f k q) = cc
  Step-Inv (step_post m e) (during blocked g f k q) = cc
  Step-Inv (step_post m e) (during returned g f k q) = cc
  Step-Inv (step_share m e) (at_entry k q) = cc
  Step-Inv (step_share m e) (during entered g f k q) = absurd f
  Step-Inv (step_share m e) (during posted g f k q) =
      during waiting g tt (omega arith) (e ∙ (ap (do_share R) q ∙ share-state_at g))
  Step-Inv (step_share m e) (during waiting g f k q) = cc
  Step-Inv (step_share m e) (during blocked g f k q) = cc
  Step-Inv (step_share m e) (during returned g f k q) = cc
  Step-Inv (step_join m d e) (at_entry k q) = cc
  Step-Inv (step_join m d e) (during entered g f k q) = absurd f
  Step-Inv (step_join m d e) (during posted g f k q) = cc
  Step-Inv (step_join m d e) (during waiting g f k q) =
      let done = join-fits g (sym (ap work_done_of q) ∙ d) in
      during returned g done (omega arith) (e ∙ (ap (do_join R) q ∙ join-state_at g done))
  Step-Inv (step_join m d e) (during blocked g f k q) = cc
  Step-Inv (step_join m d e) (during returned g f k q) = cc
  Step-Inv (step_block m d e) (at_entry k q) = cc
  Step-Inv (step_block m d e) (during entered g f k q) = absurd f
  Step-Inv (step_block m d e) (during posted g f k q) = cc
  Step-Inv (step_block m d e) (during waiting g f k q) =
      during blocked g (block-fits g (sym (ap work_done_of q) ∙ d)) (omega arith)
        (e ∙ ap (do_block R) q)
  Step-Inv (step_block m d e) (during blocked g f k q) = cc
  Step-Inv (step_block m d e) (during returned g f k q) = cc
  Step-Inv (step_recheck a h e) (at_entry k q) = cc
  Step-Inv (step_recheck a h e) (during m g f k q) =
      absurd (recheck-fits g (sym (ap worker_of q) ∙ a) (sym (ap has_work_of q) ∙ h))
  Step-Inv (step_wake a h e) (at_entry k q) = cc
  Step-Inv (step_wake a h e) (during m g f k q) =
      let now = wake-fits g (sym (ap worker_of q) ∙ a) (sym (ap has_work_of q) ∙ h) in
      during m running (Fits-other m g running f (λ r. cc) (λ r. cc))
        (omega (arith, ap stage_done now)) (e ∙ (ap (do_wake R) q ∙ wake-state_at m g now))
  Step-Inv (step_compute a e) (at_entry k q) = cc
  Step-Inv (step_compute a e) (during m g f k q) =
      let now = compute-fits g (sym (ap worker_of q) ∙ a) in
      during m finished (Fits-other m g finished f (λ r. cc) (λ r. cc))
        (omega (arith, ap stage_done now)) (e ∙ (ap (do_compute R) q ∙ compute-state_at m g now))
  Step-Inv (step_publish a e) (at_entry k q) = cc
  Step-Inv (step_publish a e) (during m g f k q) =
      let now = publish-fits g (sym (ap worker_of q) ∙ a) in
      during (signal_main m) reported (Fits-signal m g f (λ r. cc))
        (omega (arith, ap stage_done now, signal-done m))
        (e ∙ (ap (do_publish R) q ∙ publish-state_at m g now))

  pub steps : {s : S} → Reach R (begin R box mine theirs) s → ℕ
  steps here = 0
  steps (next r st) = suc (steps r)

  Reach-Inv : {s : S} (r : Reach R (begin R box mine theirs) s) → Inv (steps r) s
  unfolding steps
  Reach-Inv here = at_entry refl refl
  Reach-Inv (next r st) = Step-Inv st (Reach-Inv r)

  Inv-last_state : {n : ℕ} {s : S} → Inv n s → s.main ≡ returned → s ≡ last_state
  unfolding begin
  Inv-last_state (at_entry k q) done = cc
  Inv-last_state (during entered g f k q) done = absurd f
  Inv-last_state (during posted g f k q) done = cc
  Inv-last_state (during waiting g f k q) done = cc
  Inv-last_state (during blocked g f k q) done = cc
  Inv-last_state (during returned g f k q) done = q ∙ ap (state_at returned) f

  -- When the caller has returned, the state is that one.
  pub Reach-last_state :
      (s : S) → Reach R (begin R box mine theirs) s → s.main ≡ returned → s ≡ last_state
  Reach-last_state s r done = Inv-last_state (Reach-Inv r) done

  pub has_work-last_state : R.has_work last_state.box ≡ false
  has_work-last_state = L.has_work-publish box2

  -- Some thread can take a step, or the call is over.
  Progress : S → Type 0
  Progress s = (s.main ≡ returned) ⊎ ((t : S) × Step R s t)

  worker-Step :
      (m : MainPc) (g : Stage) (s : S) → s ≡ state_at m g → (g ≡ reported) ⊎ ((t : S) × Step R s t)
  worker-Step m pending s q =
      inr ((do_wake R) s, step_wake (ap worker_of q) (ap has_work_of q ∙ box1_flags.0) refl)
  worker-Step m running s q = inr ((do_compute R) s, step_compute (ap worker_of q) refl)
  worker-Step m finished s q = inr ((do_publish R) s, step_publish (ap worker_of q) refl)
  worker-Step m reported s q = inl refl

  Inv-Progress : {n : ℕ} (s : S) → Inv n s → Progress s
  unfolding begin Progress
  Inv-Progress s (at_entry k q) = inr ((do_post R) s, step_post (ap main_of q) refl)
  Inv-Progress s (during entered g f k q) = absurd f
  Inv-Progress s (during posted g f k q) = inr ((do_share R) s, step_share (ap main_of q) refl)
  Inv-Progress s (during waiting g f k q) = elim (worker-Step waiting g s q) [
    | inl done ↦ inr (
      (do_join R) s,
      step_join (ap main_of q) (ap work_done_of (q ∙ ap (state_at waiting) done) ∙ box3_flags.1)
          refl,
    )
    | inr t ↦ inr t
  ]
  Inv-Progress s (during blocked g f k q) = elim (worker-Step blocked g s q) [
    | inl done ↦ absurd (f done)
    | inr t ↦ inr t
  ]
  Inv-Progress s (during returned g f k q) = inl (ap main_of q)

  Inv-bound : {n : ℕ} {s : S} → Inv n s → n ≤ 7
  Inv-bound (at_entry k q) = omega arith
  Inv-bound (during m g f k q) = omega (arith, main_bound m, stage_bound g)

  -- The call neither deadlocks nor runs on: in every reachable state the main thread has returned
  -- or some thread can take a step, and no run has more than seven steps.
  pub Reach-progress :
      (s : S) (r : Reach R (begin R box mine theirs) s)
      → ((s.main ≡ returned) ⊎ ((t : S) × Step R s t)) × (steps r ≤ 7)
  unfolding Progress
  Reach-progress s r = (Inv-Progress s (Reach-Inv r), Inv-bound (Reach-Inv r))
