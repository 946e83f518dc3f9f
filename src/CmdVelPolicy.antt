-- ===== src/CmdVelPolicy.antt =====
-- flyto_robotics/cmd_vel_policy.py: `resolve_cmd_vel_type`.
use flyto_robotics.Prelude.{
  ◌≡◌, refl, String, Bool, true, false, not, ◌&&◌, List, [], ◌∷◌, if◌then◌else◌, contains, str_eq,
  Bool-cases, inl, inr,
}

pub record CmdVelDecision : Type 0 where
  pub message_type : String
  pub provisional : Bool

abbrev is_unheard : List String → Bool
is_unheard [] = true
is_unheard (t ∷ types) = false

unfoldable pub resolve_cmd_vel_type : String → List String → Bool → Bool → CmdVelDecision
resolve_cmd_vel_type configured subscriber_types discovery_expired stop_cannot_wait =
    if not (str_eq configured "auto")
    then record { message_type = configured; provisional = false }
    else if contains "geometry_msgs/msg/TwistStamped" subscriber_types
    then record { message_type = "twist_stamped"; provisional = false }
    else if not (is_unheard subscriber_types)
    then record { message_type = "twist"; provisional = false }
    else if not discovery_expired
    then (if stop_cannot_wait
        then record { message_type = "twist"; provisional = true }
        else record { message_type = ""; provisional = true })
    else record { message_type = "twist"; provisional = true }

-- A decision is open to revision exactly if the type is chosen automatically and nobody has been
-- heard on the topic. With a type that is configured or automatic, it is left undecided exactly if,
-- besides, the discovery may still go on and the caller has no stop to publish.
pub resolve_cmd_vel_type_lem :
    (configured : String) (types : List String) (expired stop : Bool)
    → str_eq configured "" ≡ false
    → ((resolve_cmd_vel_type configured types expired stop).provisional
        ≡ (str_eq configured "auto" && is_unheard types))
      × (str_eq (resolve_cmd_vel_type configured types expired stop).message_type ""
          ≡ (str_eq configured "auto" && is_unheard types && not expired && not stop))
unfolding resolve_cmd_vel_type
resolve_cmd_vel_type_lem configured types expired stop h =
    elim (Bool-cases (str_eq configured "auto")) [
      | inr a ↦ (rw a refl, rw a h)
      | inl a ↦ (rw a (settled types expired stop), rw a (undecided types expired stop))
    ]
  where
    automatic : List String → Bool → Bool → CmdVelDecision
    automatic types expired stop = resolve_cmd_vel_type "auto" types expired stop

    settled :
        (types : List String) (expired stop : Bool)
        → (automatic types expired stop).provisional ≡ is_unheard types
    settled [] true stop = refl
    settled [] false true = refl
    settled [] false false = refl
    settled (t ∷ types) expired stop =
        elim (Bool-cases (contains "geometry_msgs/msg/TwistStamped" (t ∷ types))) [
          | inl b ↦ rw b refl
          | inr b ↦ rw b refl
        ]

    undecided :
        (types : List String) (expired stop : Bool)
        → str_eq (automatic types expired stop).message_type ""
          ≡ (is_unheard types && not expired && not stop)
    undecided [] true stop = refl
    undecided [] false true = refl
    undecided [] false false = refl
    undecided (t ∷ types) expired stop =
        elim (Bool-cases (contains "geometry_msgs/msg/TwistStamped" (t ∷ types))) [
          | inl b ↦ rw b refl
          | inr b ↦ rw b refl
        ]
