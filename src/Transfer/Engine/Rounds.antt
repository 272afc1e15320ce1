-- ===== src/Transfer/Engine/Rounds.antt =====
-- The rounds of the loop of `_run`: what is dialled in one, and that a plan is followed once.
use live_kit_voice_agent.Prelude.{
  ℕ, ◌≡◌, ◌≢◌, refl, sym, ap, ◌∙◌, Bool, true, false, Option, none, some, ◌∷◌, arith,
}
use live_kit_voice_agent.Transfer.Status.{TransferStatus, dialing_agent}
use live_kit_voice_agent.Transfer.Destinations.{TransferDestinationInfo}
use live_kit_voice_agent.Transfer.Fallback.{FallbackPlan, plan_fallback, untried}
use live_kit_voice_agent.Transfer.Fallback.Plans.{plan_fallback_destination, plan_fallback_once}
use live_kit_voice_agent.Transfer.Engine.World.{
  Context, World, Outcome, done, raised, out_of_fuel, M, continue, ◌>>=◌, ◌>>◌, pure, get, modify,
  await,
}
use live_kit_voice_agent.Transfer.Engine.Steps.{dial}
use live_kit_voice_agent.Transfer.Engine.Run.{
  dial_to_status, fail, note_dial, follow_plan, fall_back, after_failed_dial, after_dial,
  on_answered, dial_loop,
}
use live_kit_voice_agent.Transfer.Engine.Frame.{
  Frame, Frames, ends, get-Frames, await-Frames, advance-Frames, patch-Frames, fail-Frames,
  if-Frames, bind-Frames,
}
use live_kit_voice_agent.Transfer.Engine.Answered.{is_private, on_answered-Private}

-- What holds of the world at the end of the computation, which does not run out of fuel.
pub record Ends (Q : World → Type 0) {A : Type 0} (r : Outcome A × World) : Type 0 where
  pub post : Q r.1
  pub total : ends r.0 ≡ true

pub continue-Ends :
    {P Q : World → Type 0} {A B : Type 0} (r : Outcome A × World) (f : A → M B)
    → Ends P r
    → ((w : World) → P w → Q w)
    → ((a : A) (w : World) → P w → Ends Q (f a w))
    → Ends Q (continue r f)
continue-Ends (done a, w) f e weaken h = h a w e.post
continue-Ends (raised x, w) f e weaken h = record { post = weaken w e.post; total = refl }
continue-Ends (out_of_fuel, w) f e weaken h = let t = e.total in cc

pub of_Frames : {A : Type 0} {m : M A} (w : World) → Frames m → Ends (Frame w) (m w)
of_Frames w f = record { post = f.frame w; total = f.total w }

module _ (c : Context) where
  note_dial-Frames : (first : Bool) (d : TransferDestinationInfo) → Frames (note_dial c first d)
  unfolding note_dial
  note_dial-Frames first d =
      bind-Frames get-Frames
        (λ w. if-Frames first (advance-Frames c dialing_agent _) (patch-Frames c _))

  -- The world after a dial of `d`.
  record Dialled (d : TransferDestinationInfo) (w v : World) : Type 0 where
    dialled : v.dialled ≡ d.id ∷ w.dialled
    tried : v.tried ≡ w.tried
    private : is_private w ≡ true → is_private v ≡ true

  pub Frame-private : (w v : World) → Frame w v → is_private w ≡ true → is_private v ≡ true
  Frame-private w v f h = let e = f.overheard in let g = f.unisolated in ground (arith, e, g, h)

  dial-Ends : (d : TransferDestinationInfo) (w : World) → Ends (Dialled d w) (dial c d w)
  unfolding dial ◌>>=◌ ◌>>◌ modify pure await
  dial-Ends d w =
      let f = (await-Frames c).frame (record w { dialled = d.id ∷ w.dialled }) in
      record {
        post = record {
          dialled = unfold await in f.dialled;
          tried = unfold await in f.tried;
          private =
              λ h. Frame-private (record w { dialled = d.id ∷ w.dialled }) _ (unfold await in f) h;
        };
        total = refl;
      }

  -- One round of the loop: `Q` holds at its end if it holds where no more is dialled than `d`, and
  -- at the end of the rounds that follow where the plan names a destination.
  module _ (Q : World → Type 0) (d : TransferDestinationInfo) (w : World)
      (idle : (v : World)
        → v.dialled ≡ w.dialled
        → (is_private w ≡ true → is_private v ≡ true)
        → Q v)
      (once : (v : World)
        → v.dialled ≡ d.id ∷ w.dialled
        → (is_private w ≡ true → is_private v ≡ true)
        → Q v) where
    settled :
        {A : Type 0} (m : M A) (v : World)
        → Frames m
        → Dialled d (record w { tried = d.id ∷ w.tried }) v
        → Ends Q (m v)
    settled m v f h =
        let g = f.frame v in
        record {
          post =
              once (m v).1 (g.dialled ∙ h.dialled) (λ k. Frame-private v (m v).1 g (h.private k));
          total = f.total v;
        }

    module _ (dial_on : TransferDestinationInfo → M (Unit {0}))
        (again : (s : TransferStatus) (p : FallbackPlan) (e : TransferDestinationInfo) (v : World)
          → plan_fallback s c.fallback c.destinations (d.id ∷ w.tried) ≡ some p
          → p.destination ≡ some e
          → Dialled d (record w { tried = d.id ∷ w.tried }) v
          → Ends Q (dial_on e v)) where
      follow_plan-Ends :
          (s : TransferStatus) (p : FallbackPlan) (o : Option TransferDestinationInfo) (v : World)
          → plan_fallback s c.fallback c.destinations (d.id ∷ w.tried) ≡ some p
          → p.destination ≡ o
          → Dialled d (record w { tried = d.id ∷ w.tried }) v
          → Ends Q (follow_plan c dial_on s p o v)
      unfolding follow_plan
      follow_plan-Ends s p none v k e h = settled (fail c s (some p)) v (fail-Frames c s (some p)) h
      follow_plan-Ends s p (some f) v k e h = again s p f v k e h

      fall_back-Ends :
          (s : TransferStatus) (o : Option FallbackPlan) (v : World)
          → plan_fallback s c.fallback c.destinations (d.id ∷ w.tried) ≡ o
          → Dialled d (record w { tried = d.id ∷ w.tried }) v
          → Ends Q (fall_back c dial_on s o v)
      unfolding fall_back
      fall_back-Ends s none v k h = settled (fail c s none) v (fail-Frames c s none) h
      fall_back-Ends s (some p) v k h = follow_plan-Ends s p p.destination v k refl h

      after_dial-Ends :
          (o : Option TransferStatus) (v : World)
          → Dialled d (record w { tried = d.id ∷ w.tried }) v
          → Ends Q (after_dial c dial_on d o v)
      unfolding after_dial after_failed_dial ◌>>=◌ get
      after_dial-Ends none v h =
          let k = on_answered-Private c d in
          let q = k.rel v in
          record {
            post =
                once (on_answered c d v).1 (q.dialled ∙ h.dialled) (λ k. q.private (h.private k));
            total = k.total v;
          }
      after_dial-Ends (some s) v h =
          fall_back-Ends s (plan_fallback s c.fallback c.destinations v.tried) v
            (ap (plan_fallback s c.fallback c.destinations) (sym h.tried)) h

      note_dial-Ends :
          (first : Bool)
          → Ends
              (Frame (record w { tried = d.id ∷ w.tried }))
              ((modify (λ v. record v { tried = d.id ∷ v.tried }) >> note_dial c first d) w)
      unfolding ◌>>◌ ◌>>=◌ modify
      note_dial-Ends first =
          of_Frames (record w { tried = d.id ∷ w.tried }) (note_dial-Frames first d)

      round-Ends :
          (first : Bool)
          → Ends Q (
              ((modify (λ v. record v { tried = d.id ∷ v.tried }) >> note_dial c first d)
                  >> (dial c d >>= λ outcome. after_dial c dial_on d (dial_to_status outcome)))
                w)
      unfolding ◌>>◌ ◌>>=◌
      round-Ends first =
          continue-Ends _ _ (note_dial-Ends first)
            (λ v f. idle v f.dialled (Frame-private (record w { tried = d.id ∷ w.tried }) v f))
            (λ _ v f.
              continue-Ends (dial c d v) _ (dial-Ends d v)
                (λ u g.
                  once u (g.dialled ∙ ap (◌∷◌ d.id) f.dialled)
                    (λ k. g.private (Frame-private (record w { tried = d.id ∷ w.tried }) v f k)))
                (λ outcome u g. after_dial-Ends (dial_to_status outcome) u (record {
                  dialled = g.dialled ∙ ap (◌∷◌ d.id) f.dialled;
                  tried = g.tried ∙ f.tried;
                  private =
                      λ k. g.private (Frame-private (record w { tried = d.id ∷ w.tried }) v f k);
                })))

-- Nothing was dialled, or `d` alone, or `d` and then one other.
pub data Dials (d : TransferDestinationInfo) (w v : World) : Type 0 where
  none_dialled : v.dialled ≡ w.dialled → Dials d w v
  one_dialled : v.dialled ≡ d.id ∷ w.dialled → Dials d w v
  two_dialled : (e : ℕ) → v.dialled ≡ e ∷ d.id ∷ w.dialled → e ≢ d.id → Dials d w v

pub after : (d : TransferDestinationInfo) (u v w : World) → Frame v w → Dials d u v → Dials d u w
after d u v w f (none_dialled e) = none_dialled (f.dialled ∙ e)
after d u v w f (one_dialled e) = one_dialled (f.dialled ∙ e)
after d u v w f (two_dialled i e n) = two_dialled i (f.dialled ∙ e) n

-- The dials, and whether the whisper stayed private.
pub record Result (d : TransferDestinationInfo) (w v : World) : Type 0 where
  pub dials : Dials d w v
  pub private : is_private w ≡ true → is_private v ≡ true

module _ (c : Context) where
  -- The second round, whose destination a plan named.
  second-Ends :
      (d e : TransferDestinationInfo) (w v : World) (s : TransferStatus) (p : FallbackPlan)
      → plan_fallback s c.fallback c.destinations (d.id ∷ w.tried) ≡ some p
      → p.destination ≡ some e
      → Dialled c d (record w { tried = d.id ∷ w.tried }) v
      → Ends (Result d w) (dial_loop c 1 false e v)
  unfolding dial_loop
  second-Ends d e w v s p planned named h =
      round-Ends c (Result d w) e v
        (λ u i j. record { dials = one_dialled (i ∙ h.dialled); private = λ k. j (h.private k) })
        (λ u i j. record {
          dials = two_dialled e.id (i ∙ ap (◌∷◌ e.id) h.dialled) fresh;
          private = λ k. j (h.private k);
        })
        (dial_loop c 0 false)
        (λ t q f u later again _.
          let nothing =
            plan_fallback_once s t c.fallback c.destinations (d.id ∷ w.tried) (e.id ∷ v.tried)
              planned named (ground arith) later in
          cc (nothing, again))
        false
    where
      fresh : e.id ≢ d.id
      fresh same =
          let (_, untried, _) =
            plan_fallback_destination s c.fallback c.destinations (d.id ∷ w.tried) planned named in
          ground arith

  pub loop-Ends :
      (d : TransferDestinationInfo) (w : World) → Ends (Result d w) (dial_loop c 2 true d w)
  unfolding dial_loop
  loop-Ends d w =
      round-Ends c (Result d w) d w (λ u i j. record { dials = none_dialled i; private = j })
        (λ u i j. record { dials = one_dialled i; private = j }) (dial_loop c 1 false)
        (λ s p e v planned named h. second-Ends d e w v s p planned named h) true
