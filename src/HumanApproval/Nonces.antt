-- ===== src/HumanApproval/Nonces.antt =====
-- human_approval.py: no nonce is accepted twice.
use flyto_robotics.Prelude.{◌≡◌, refl, String, false, List, [], ◌∷◌, contains, if_split}
use mathlib.Core.Path.{subst}
use flyto_robotics.Python.{Result, ok, raised}
use flyto_robotics.Python.Platform.{Platform, Json}
use flyto_robotics.HumanApproval.{
  VerifiedHumanDecision, HumanDecisionAuthenticator, Presented, use_nonce, checked, verify,
}

-- Each of the names differs from those before it and from the ones that were there first.
abbrev pub Fresh : List String → List String → Type 0
Fresh used [] = Unit
Fresh used (n ∷ ns) = (contains n used ≡ false) × Fresh (n ∷ used) ns

abbrev pub nonces : List VerifiedHumanDecision → List String
nonces [] = []
nonces (d ∷ ds) = d.nonce ∷ nonces ds

-- What a call's result does to the store of nonces: a refusal leaves the authenticator as it was, and
-- an accepted decision's nonce was not there and is added.
abbrev pub Used :
    HumanDecisionAuthenticator → Result VerifiedHumanDecision × HumanDecisionAuthenticator → Type 0
Used a (raised e, b) = b ≡ a
Used a (ok d, b) =
    (contains d.nonce a.used_nonces ≡ false)
    × (b ≡ record a { used_nonces = d.nonce ∷ a.used_nonces })

Used-use_nonce :
    (r : Result VerifiedHumanDecision) (a : HumanDecisionAuthenticator) → Used a (use_nonce r a)
unfolding use_nonce
Used-use_nonce (raised e) a = refl
Used-use_nonce (ok d) a =
    if_split (Used a) (contains d.nonce a.used_nonces) (λ h. refl) λ h. (h, refl)

abbrev accept :
    Result VerifiedHumanDecision → List VerifiedHumanDecision → List VerifiedHumanDecision
accept (ok d) ds = d ∷ ds
accept (raised e) ds = ds

Fresh-accept :
    (a b : HumanDecisionAuthenticator) (r : Result VerifiedHumanDecision)
    (ds : List VerifiedHumanDecision)
    → Used a (r, b)
    → Fresh b.used_nonces (nonces ds)
    → Fresh a.used_nonces (nonces (accept r ds))
Fresh-accept a b (raised e) ds same h =
    subst (λ (c : HumanDecisionAuthenticator). Fresh c.used_nonces (nonces ds)) same h
Fresh-accept a b (ok d) ds (unused, same) h =
    (unused, subst (λ (c : HumanDecisionAuthenticator). Fresh c.used_nonces (nonces ds)) same h)

module _ {F : Type 0} ⦃platform : Platform⦄ ⦃json : Json F⦄ where
  -- A call that is refused leaves the authenticator as it was. A decision that is accepted has a
  -- nonce that was not used yet, and all that changes is that it is used now.
  pub Used-verify : (p : Presented F) (a : HumanDecisionAuthenticator) → Used a (verify p a)
  unfolding verify
  Used-verify p a =
      Used-use_nonce (checked a.secret p.value p.expected_job_id p.expected_robot_id p.now) a

  -- The decisions that a sequence of calls accepts, in their order.
  unfoldable pub verify_all :
      List (Presented F) → HumanDecisionAuthenticator → List VerifiedHumanDecision
  verify_all [] a = []
  verify_all (p ∷ ps) a = let (r, b) = verify p a in accept r (verify_all ps b)

  -- Whatever is presented to an authenticator, in whatever order, the decisions it accepts have
  -- nonces that differ from each other and from those used before.
  pub Fresh-verify_all :
      (ps : List (Presented F)) (a : HumanDecisionAuthenticator)
      → Fresh a.used_nonces (nonces (verify_all ps a))
  unfolding verify_all
  Fresh-verify_all [] a = tt
  Fresh-verify_all (p ∷ ps) a =
      Fresh-accept a (verify p a).1 (verify p a).0 _ (Used-verify p a)
        (Fresh-verify_all ps (verify p a).1)
