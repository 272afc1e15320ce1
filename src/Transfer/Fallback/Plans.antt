-- ===== src/Transfer/Fallback/Plans.antt =====
-- What a fallback plan promises.
use live_kit_voice_agent.Prelude.{
  ℕ, ◌≡◌, true, false, Option, none, some, List, Memᴰ, ◌==◌, any, arith, Option-cases, inl, inr,
  is_some, not,
}
use live_kit_voice_agent.Transfer.Status.{TransferStatus}
use live_kit_voice_agent.Transfer.Destinations.{TransferDestinationInfo, resolve_destination}
use live_kit_voice_agent.Transfer.Destinations.Choice.{resolve_destination-mem}
use live_kit_voice_agent.Transfer.Fallback.{
  TransferFallback, FallbackPlan, is_fallback_trigger, is_retry_action, planned_destination,
  plan_fallback, untried,
}

untried_sound :
    (tried : List ℕ) (o : Option TransferDestinationInfo) (d : TransferDestinationInfo)
    → untried tried o ≡ some d
    → (o ≡ some d) × (any (◌==◌ d.id) tried ≡ false)
untried_sound tried none d h = cc
untried_sound tried (some e) d h = ground arith

planned_destination_sound :
    (fallback : Option TransferFallback) (ds : List TransferDestinationInfo) (tried : List ℕ)
    (d : TransferDestinationInfo)
    → planned_destination fallback ds tried ≡ some d
    → Memᴰ d ds × (any (◌==◌ d.id) tried ≡ false)
unfolding planned_destination
planned_destination_sound none ds tried d h = cc
planned_destination_sound (some f) ds tried d h = elim (Option-cases f.destination_id) [
  | inl missing ↦ ground arith
  | inr (i, e) ↦
      let (found, fresh) =
        untried_sound tried (resolve_destination ds none (some i)) d (ground arith) in
      (resolve_destination-mem ds none (some i) d found, fresh)
]

-- A plan is made exactly for the statuses that trigger the fallback chain.
pub plan_fallback_trigger :
    (status : TransferStatus) (fallback : Option TransferFallback)
    (ds : List TransferDestinationInfo) (tried : List ℕ)
    → is_some (plan_fallback status fallback ds tried) ≡ is_fallback_trigger status
unfolding plan_fallback
plan_fallback_trigger status fallback ds tried = ground arith

-- A plan hangs up exactly if it names no destination to dial.
pub plan_fallback_hangup :
    (status : TransferStatus) (fallback : Option TransferFallback)
    (ds : List TransferDestinationInfo) (tried : List ℕ) {p : FallbackPlan}
    → plan_fallback status fallback ds tried ≡ some p
    → p.hangup ≡ not (is_some p.destination)
unfolding plan_fallback
plan_fallback_hangup status fallback ds tried h = ground arith

-- A destination that a plan names is one of those given, has not been tried, and the action that
-- it is for is the queue or the voicemail.
pub plan_fallback_destination :
    (status : TransferStatus) (fallback : Option TransferFallback)
    (ds : List TransferDestinationInfo) (tried : List ℕ) {p : FallbackPlan}
    {d : TransferDestinationInfo}
    → plan_fallback status fallback ds tried ≡ some p
    → p.destination ≡ some d
    → Memᴰ d ds × (any (◌==◌ d.id) tried ≡ false) × (is_retry_action p.action ≡ true)
unfolding plan_fallback
plan_fallback_destination status fallback ds tried {p} {d} h e =
    let named : planned_destination fallback ds tried ≡ some d = ground arith in
    let (listed, fresh) = planned_destination_sound fallback ds tried d named in
    (listed, fresh, ground arith)

planned_destination_same :
    (fallback : Option TransferFallback) (ds : List TransferDestinationInfo) (early late : List ℕ)
    {e f : TransferDestinationInfo}
    → planned_destination fallback ds early ≡ some e
    → planned_destination fallback ds late ≡ some f
    → f ≡ e
unfolding planned_destination
planned_destination_same none ds early late h k = cc
planned_destination_same (some fb) ds early late {e} {f} h k =
    elim (Option-cases fb.destination_id) [
      | inl missing ↦ absurd (ground arith)
      | inr (i, named) ↦
          let o = resolve_destination ds none (some i) in
          let first = untried_sound early o e (ground arith) in
          let second = untried_sound late o f (ground arith) in cc (first.0, second.0)
    ]

named_by_plan :
    (status : TransferStatus) (fallback : Option TransferFallback)
    (ds : List TransferDestinationInfo) (tried : List ℕ) {p : FallbackPlan}
    {d : TransferDestinationInfo}
    → plan_fallback status fallback ds tried ≡ some p
    → p.destination ≡ some d
    → planned_destination fallback ds tried ≡ some d
unfolding plan_fallback
named_by_plan status fallback ds tried h e = ground arith

-- Where a plan names `e`, a plan that is made once `e` was tried names no destination.
pub plan_fallback_once :
    (s t : TransferStatus) (fallback : Option TransferFallback) (ds : List TransferDestinationInfo)
    (early late : List ℕ) {p q : FallbackPlan} {e : TransferDestinationInfo}
    → plan_fallback s fallback ds early ≡ some p
    → p.destination ≡ some e
    → any (◌==◌ e.id) late ≡ true
    → plan_fallback t fallback ds late ≡ some q
    → q.destination ≡ none
plan_fallback_once s t fallback ds early late {p} {q} {e} h named again k =
    elim (Option-cases q.destination) [
      | inl missing ↦ missing
      | inr (f, later) ↦
          let same =
            planned_destination_same fallback ds early late
              (named_by_plan s fallback ds early h named)
              (named_by_plan t fallback ds late k later) in
          let fresh = (plan_fallback_destination t fallback ds late k later).1 in cc (same, fresh)
    ]
