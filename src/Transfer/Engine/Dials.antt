-- ===== src/Transfer/Engine/Dials.antt =====
-- Whom `_run` dials: whatever happens meanwhile, the destination it was given and at most one other,
-- and the whisper is played to legs that may hear each other only where isolating them failed.
use live_kit_voice_agent.Prelude.{◌≡◌, ap, ◌∙◌, true, [], ◌∷◌}
use live_kit_voice_agent.Transfer.Status.{announcing, failed}
use live_kit_voice_agent.Transfer.Destinations.{TransferDestinationInfo}
use live_kit_voice_agent.Transfer.Engine.World.{
  Context, World, Raise, Outcome, done, raised, out_of_fuel, M, handle, ◌>>=◌, ◌>>◌, get, modify,
}
use live_kit_voice_agent.Transfer.Engine.Steps.{advance, say_to_caller, start_hold, announcement}
use live_kit_voice_agent.Transfer.Engine.Run.{dial_loop, run_body, recover, run, rounds}
use live_kit_voice_agent.Transfer.Engine.Frame.{
  Frame, Frame-refl, Frame-trans, Frames, ends, get-Frames, advance-Frames, say_to_caller-Frames,
  start_hold-Frames, fail-Frames, bind-Frames,
}
use live_kit_voice_agent.Transfer.Engine.Rounds.{
  Ends, continue-Ends, of_Frames, Dials, none_dialled, one_dialled, two_dialled, after, Result,
  Frame-private, loop-Ends,
}

module _ (c : Context) where
  -- A framed step before the rest.
  framed-Ends :
      {Q : World → Type 0} {A : Type 0} (u w : World) (m : M (Unit {0})) (k : M A)
      → Frame u w
      → Frames m
      → ((v : World) → Frame u v → Q v)
      → ((v : World) → Frame u v → Ends Q (k v))
      → Ends Q ((m >> k) w)
  unfolding ◌>>◌ ◌>>=◌
  framed-Ends u w m k f h weaken rest =
      continue-Ends (m w) (λ _. k) (of_Frames w h) (λ v g. weaken v (Frame-trans f g))
        (λ _ v g. rest v (Frame-trans f g))

  -- The result of what follows framed steps is a result for the world before them.
  moved :
      (d : TransferDestinationInfo) (u v : World) {w : World}
      → Frame u v
      → Dials d v w
      → Dials d u w
  moved d u v f (none_dialled e) = none_dialled (e ∙ f.dialled)
  moved d u v f (one_dialled e) = one_dialled (e ∙ ap (◌∷◌ d.id) f.dialled)
  moved d u v f (two_dialled i e n) = two_dialled i (e ∙ ap (λ l. i ∷ d.id ∷ l) f.dialled) n

  moved-Ends :
      (d : TransferDestinationInfo) (u v : World) (r : Outcome (Unit {0}) × World)
      → Frame u v
      → Ends (Result d v) r
      → Ends (Result d u) r
  moved-Ends d u v r f e = record {
    post = record {
      dials = moved d u v f e.post.dials;
      private = λ k. e.post.private (Frame-private c u v f k);
    };
    total = e.total;
  }

  idle-Result : (d : TransferDestinationInfo) (u v : World) → Frame u v → Result d u v
  idle-Result d u v f = record { dials = none_dialled f.dialled; private = Frame-private c u v f }

  run_body-Ends :
      (d : TransferDestinationInfo) (w : World)
      → Ends (Result d (record w { tried = [] })) (run_body c d w)
  unfolding run_body ◌>>=◌ get modify ◌>>◌
  run_body-Ends d w =
      let u = record w { tried = [] } in
      framed-Ends u u (advance c announcing _) _ (Frame-refl u) (advance-Frames c announcing _)
        (idle-Result d u)
        (λ v f.
          framed-Ends u v (say_to_caller c (announcement c)) _ f
            (say_to_caller-Frames c (announcement c)) (idle-Result d u)
            (λ x g.
              framed-Ends u x (start_hold c) _ g (start_hold-Frames c) (idle-Result d u)
                (λ y h. moved-Ends d u y (dial_loop c rounds true d y) h (loop-Ends c d y))))

  recover-Frames : (r : Raise) → Frames (recover c r)
  unfolding recover
  recover-Frames r = bind-Frames get-Frames (λ w. fail-Frames c failed _)

  handle-Ends :
      (d : TransferDestinationInfo) (u : World) (r : Outcome (Unit {0}) × World)
      → Ends (Result d u) r
      → Ends (Result d u) (handle r (recover c))
  handle-Ends d u (done a, w) e = e
  handle-Ends d u (raised x, w) e =
      let f = (recover-Frames x).frame w in
      record {
        post = record {
          dials = after d u w (recover c x w).1 f e.post.dials;
          private = λ k. Frame-private c w (recover c x w).1 f (e.post.private k);
        };
        total = (recover-Frames x).total w;
      }
  handle-Ends d u (out_of_fuel, w) e = let t = e.total in cc

  retried :
      (d : TransferDestinationInfo) (w : World) {v : World}
      → Dials d (record w { tried = [] }) v
      → Dials d w v
  retried d w (none_dialled e) = none_dialled e
  retried d w (one_dialled e) = one_dialled e
  retried d w (two_dialled i e n) = two_dialled i e n

  run-Ends :
      (d : TransferDestinationInfo) (w : World)
      → Ends (Result d (record w { tried = [] })) (run c d w)
  unfolding run
  run-Ends d w = handle-Ends d (record w { tried = [] }) (run_body c d w) (run_body-Ends d w)

  -- A transfer to `d` ends, within the rounds given to its loop, whatever happens meanwhile and whatever
  -- raises. It dials no one, or `d` alone, or `d` and then one destination with another identifier.
  pub run-Dials :
      (d : TransferDestinationInfo) (w : World)
      → Dials d w (run c d w).1 × (ends (run c d w).0 ≡ true)
  run-Dials d w = let e = run-Ends d w in (retried d w e.post.dials, e.total)
