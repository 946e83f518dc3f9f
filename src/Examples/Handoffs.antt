-- ===== src/Examples/Handoffs.antt =====
-- Guarded handoffs and human decisions on concrete inputs, as tests and as witnesses.
use flyto_robotics.Prelude.{
  ◌≡◌, refl, String, true, false, none, some, List, [], ◌∷◌, Any, contains,
}
use flyto_robotics.Prelude.Int.{ℤ, pos, ◌+ℤ◌, ◌-ℤ◌}
use flyto_robotics.Capabilities.{safe_text}
use flyto_robotics.Python.{object, ok}
use flyto_robotics.Python.Checks.{OkAnd, ◌>>=◌}
use flyto_robotics.Handoff.{GuardedHandoffPolicy, HandoffAction, completed, names}
use flyto_robotics.Handoff.Session.{new, apply, apply_all}
use flyto_robotics.Handoff.Gates.{Meets, ShowsItem, ShowsRecipient}
use flyto_robotics.Handoff.Unlocking.{unlocked_passed_gates}
use flyto_robotics.Handoff.History.{IsHistory, IsHistory-new}
use flyto_robotics.Handoff.Moves.{Moves, Moves-apply, IsCoherent-new}
use flyto_robotics.Handoff.Parsing.{GuardedHandoffScript, run_scripted_handoff}
use flyto_robotics.Handoff.Scripts.{IsHandedOver, IsHandedOver-run_scripted_handoff}
use flyto_robotics.HumanApproval.{
  HumanDecisionAuthenticator, Presented, checked, verify, use_nonce, decoded_of, object_of,
  canonical_unsigned, check_fields, check_signature, stated, check_scope, is_signature,
}
use flyto_robotics.HumanApproval.Checks.{IsAuthentic, IsAuthentic-checked}
use flyto_robotics.HumanApproval.Nonces.{
  Used, Used-verify, nonces, Fresh, verify_all, Fresh-verify_all,
}
use flyto_robotics.HumanApproval.Signing.{signed, accepts, envelope, build-verify}
use flyto_robotics.Examples.Services.{platform, json}

abbrev handoff_policy : GuardedHandoffPolicy
handoff_policy = record {
  policy_id = "p1";
  container_id = "box";
  expected_item_ref = "item-1";
  expected_recipient_ref = "person-1";
  required_preconditions = ("door", "closed") ∷ [];
  synthetic = true;
}

abbrev acts : String → HandoffAction
acts verb = record {
  action = verb;
  name = none;
  value = none;
  observed_ref = none;
  actor_id = none;
}

abbrev shows : String → String → HandoffAction
shows verb ref = record (acts verb) { observed_ref = some ref }

abbrev checks_door : HandoffAction
checks_door = record (acts "check_precondition") { name = some "door"; value = some "closed" }

-- The wrong item first, and then through the checkpoint.
abbrev run : List HandoffAction
run =
    checks_door
    ∷ shows "scan_item" "item-2"
    ∷ shows "scan_item" "item-1"
    ∷ acts "resume_checkpoint"
    ∷ shows "scan_recipient" "person-1"
    ∷ acts "unlock_container"
    ∷ acts "complete"
    ∷ []

handoff_test : (apply_all run (new handoff_policy "s1")).1.state ≡ completed
unfolding apply_all new
handoff_test = refl

unlocked_test : (apply_all run (new handoff_policy "s1")).1.container_locked ≡ false
unfolding apply_all new
unlocked_test = refl

unlocked_passed_gates_example :
    ((name : String)
      → contains name (names handoff_policy.required_preconditions) ≡ true
      → Any (Meets handoff_policy name) run)
    × Any (ShowsItem handoff_policy) run
    × Any (ShowsRecipient handoff_policy) run
unlocked_passed_gates_example = unlocked_passed_gates handoff_policy "s1" run unlocked_test

Moves-apply_example : Moves (new handoff_policy "s1") (apply checks_door (new handoff_policy "s1"))
Moves-apply_example =
    Moves-apply checks_door (new handoff_policy "s1") (IsCoherent-new handoff_policy "s1")

IsHistory-new_example : IsHistory (apply_all run (new handoff_policy "s1")).1
IsHistory-new_example = IsHistory-new handoff_policy "s1" run

abbrev script : GuardedHandoffScript
script = record { script_id = "s1"; policy_id = "p1"; actions = run }

IsHandedOver-run_scripted_handoff_example :
    OkAnd (IsHandedOver handoff_policy script) (run_scripted_handoff handoff_policy script)
IsHandedOver-run_scripted_handoff_example = IsHandedOver-run_scripted_handoff handoff_policy script

abbrev secret : String
secret = "a secret that has at least 32 bytes"

abbrev authenticator : HumanDecisionAuthenticator
authenticator = record { secret = secret; used_nonces = "n0" ∷ [] }

abbrev decided : String → Presented ℤ
decided nonce = record {
  value = object (
      envelope ℤ "job-1" "robot-1" "a1" "alice" secret nonce "{}" true (pos 100) (pos 60) (pos 120)
        []);
  expected_job_id = "job-1";
  expected_robot_id = "robot-1";
  now = pos 120;
}

-- A decision twice, and another one.
abbrev presented : List (Presented ℤ)
presented = decided "n1" ∷ decided "n1" ∷ decided "n2" ∷ []

nonces_test : nonces (verify_all presented authenticator) ≡ "n1" ∷ "n2" ∷ []
unfolding verify_all verify use_nonce checked decoded_of object_of canonical_unsigned check_fields
    check_signature stated safe_text check_scope ◌+ℤ◌ ◌-ℤ◌
nonces_test = refl

Fresh-verify_all_example : Fresh ("n0" ∷ []) (nonces (verify_all presented authenticator))
Fresh-verify_all_example = Fresh-verify_all presented authenticator

Used-verify_example : Used authenticator (verify (decided "n1") authenticator)
Used-verify_example = Used-verify (decided "n1") authenticator

IsAuthentic-checked_example :
    OkAnd
      (IsAuthentic secret (decided "n1").value "job-1" "robot-1" (pos 120))
      (checked secret (decided "n1").value "job-1" "robot-1" (pos 120))
IsAuthentic-checked_example =
    IsAuthentic-checked secret (decided "n1").value "job-1" "robot-1" (pos 120)

build-verify_example :
    (signed ℤ "job-1" "robot-1" "a1" "alice" secret "n1" "{}" true
        (pos 100)
        (pos 60)
        (pos 120)
        ("n0" ∷ [])
      >>= accepts ℤ "job-1" "robot-1" "a1" "alice" secret "n1" "{}" true
          (pos 100)
          (pos 60)
          (pos 120)
          ("n0" ∷ []))
    ≡ ok (record {
      job_id = "job-1";
      robot_id = "robot-1";
      approval_id = "a1";
      approved = true;
      actor_id = "alice";
      issued_at_epoch_seconds = pos 100;
      expires_at_epoch_seconds = pos 160;
      nonce = "n1";
    })
unfolding safe_text is_signature ◌+ℤ◌
build-verify_example =
    build-verify ℤ "job-1" "robot-1" "a1" "alice" secret "n1" "{}" true (pos 100) (pos 60) (pos 120)
      ("n0" ∷ []) refl refl refl refl refl refl refl refl refl refl refl refl refl refl
