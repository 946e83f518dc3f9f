-- ===== src/Mission/Frame.antt =====
-- What the handlers of mission.py leave alone: the core of the controller, and the log but for new
-- events at its end, numbered on.
use flyto_robotics.Prelude.{
  ℕ, suc, String, ◌+◌, ◌≤◌, ◌≡◌, refl, sym, ap, ◌∙◌, Option, none, List, [], ◌∷◌, ◌++◌, arith,
  length, length-append,
}
use flyto_robotics.Prelude.Int.{ℤ}
use mathlib.Core.Path.{subst}
use native.Mathlib.Nat.{add_comm, le_refl, le_trans}
use native.Mathlib.Numerals.{add-one}
use mathlib.Core.List.{append-nil, append_assoc}
use flyto_robotics.Python.{Runtime}
use flyto_robotics.Contracts.{DeliveryJob}
use flyto_robotics.Workflow.{MissionState, WorkflowPlan, WorkflowStep}
use flyto_robotics.Mission.Controller.{
  MissionEvent, HumanDecision, Controller, record_full, record_event,
}

pub record Core (F : Type 0) : Type 0 where
  pub job : DeliveryJob F
  pub workflow : WorkflowPlan F
  pub started_at : F
  pub state : MissionState
  pub state_entered_at : F
  pub step_index : ℤ
  pub failure_reason : Option String
  pub human_decisions : List (String × HumanDecision F)
  pub rejections : ℕ

module _ {F : Type 0} where
  abbrev pub core : Controller F → Core F
  core c = record {
    job = c.job;
    workflow = c.workflow;
    started_at = c.started_at;
    state = c.state;
    state_entered_at = c.state_entered_at;
    step_index = c.step_index;
    failure_reason = c.failure_reason;
    human_decisions = c.human_decisions;
    rejections = c.human_decision_rejection_count;
  }

  -- Events numbered n + 1, n + 2, and so on.
  abbrev pub IsNumbered : ℕ → List (MissionEvent F) → Type 0
  IsNumbered n [] = Unit
  IsNumbered n (e ∷ es) = (e.sequence ≡ suc n) × IsNumbered (suc n) es

  abbrev pub Extends : List (MissionEvent F) → List (MissionEvent F) → Type 0
  Extends old log =
      (added : List (MissionEvent F)) × (log ≡ old ++ added) × IsNumbered (length old) added

  pub record Quiet (c d : Controller F) : Type 0 where
    pub same : core d ≡ core c
    pub extends : Extends c.events d.events
    pub counted : c.safety_stop_count ≤ d.safety_stop_count

  pub IsNumbered-append :
      (n m : ℕ) (xs ys : List (MissionEvent F))
      → m ≡ length xs + n
      → IsNumbered n xs
      → IsNumbered m ys
      → IsNumbered n (xs ++ ys)
  IsNumbered-append n m [] ys e h k = subst (λ i. IsNumbered i ys) (omega (arith, e)) k
  IsNumbered-append n m (x ∷ xs) ys e h k =
      (h.0, IsNumbered-append (suc n) m xs ys (omega (arith, e)) h.1 k)

  pub Extends-refl : (log : List (MissionEvent F)) → Extends log log
  Extends-refl log = ([], sym (append-nil log), tt)

  pub Extends-trans :
      (log log' log'' : List (MissionEvent F))
      → Extends log log'
      → Extends log' log''
      → Extends log log''
  Extends-trans log log' log'' (xs, e, h) (ys, e', h') = (
    xs ++ ys,
    e' ∙ ap (λ l. l ++ ys) e ∙ append_assoc log xs ys,
    IsNumbered-append (length log) (length log') xs ys
        (ap length e ∙ (length-append log xs ∙ add_comm (length log) (length xs))) h h',
  )

  pub Quiet-refl : (c : Controller F) → Quiet c c
  Quiet-refl c = record { same = refl; extends = Extends-refl c.events; counted = le_refl _ }

  pub Quiet-trans : (b c d : Controller F) → Quiet b c → Quiet c d → Quiet b d
  Quiet-trans b c d h k = record {
    same = k.same ∙ h.same;
    extends = Extends-trans b.events c.events d.events h.extends k.extends;
    counted = le_trans h.counted k.counted;
  }

  -- A write to the other fields that leaves the log alone.
  pub Quiet-write :
      (c d : Controller F)
      → core d ≡ core c
      → d.events ≡ c.events
      → c.safety_stop_count ≤ d.safety_stop_count
      → Quiet c d
  Quiet-write c d same log counted = record {
    same = same;
    extends = ([], log ∙ sym (append-nil c.events), tt);
    counted = counted;
  }

module _ {F : Type 0} ⦃rt : Runtime F⦄ where
  pub Extends-record_full :
      (now : F) (kind detail : String) (state : MissionState) (actor : Option String)
      (step : Option (WorkflowStep F)) (c : Controller F)
      → Extends c.events (record_full now kind detail state actor step c).events
  unfolding record_full
  Extends-record_full now kind detail state actor step c = (_, refl, (add-one _, tt))

  pub Quiet-record_full :
      (now : F) (kind detail : String) (state : MissionState) (actor : Option String)
      (step : Option (WorkflowStep F)) (c : Controller F)
      → Quiet c (record_full now kind detail state actor step c)
  unfolding record_full
  Quiet-record_full now kind detail state actor step c = record {
    same = refl;
    extends = Extends-record_full now kind detail state actor step c;
    counted = le_refl _;
  }

  pub Quiet-record_event :
      (now : F) (kind detail : String) (c : Controller F) → Quiet c (record_event now kind detail c)
  unfolding record_event
  Quiet-record_event now kind detail c = Quiet-record_full now kind detail c.state none none c

  -- A write to the other fields, and then an event.
  pub Quiet-write_event :
      (now : F) (kind detail : String) (c d : Controller F)
      → core d ≡ core c
      → d.events ≡ c.events
      → c.safety_stop_count ≤ d.safety_stop_count
      → Quiet c (record_event now kind detail d)
  Quiet-write_event now kind detail c d same log counted =
      Quiet-trans c d _ (Quiet-write c d same log counted) (Quiet-record_event now kind detail d)
