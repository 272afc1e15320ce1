-- ===== src/Transfer/Engine/Silence.antt =====
-- A human who leaves during the whisper while the fallback names a destination: what becomes of the
-- caller.
use live_kit_voice_agent.Prelude.{
  ℕ, ◌+◌, ◌≡◌, refl, ap, ◌∙◌, Bool, true, false, not, ◌&&◌, some, List, [], ◌∷◌, if◌then◌else◌,
  arith,
}
use live_kit_voice_agent.Prelude.Text.{Text, is_truthy}
use live_kit_voice_agent.Transfer.Status.{TransferStatus, Fields, is_legal, agent_rejected}
use live_kit_voice_agent.Transfer.Destinations.{TransferDestinationInfo}
use live_kit_voice_agent.Transfer.Fallback.{FallbackPlan, plan_fallback}
use live_kit_voice_agent.Transfer.Engine.World.{
  Context, External, caller_gone, human_gone, digit, World, abandon, deliver, deliver_all, Raise,
  illegal, other, Outcome, done, raised, out_of_fuel, M, continue, ◌>>=◌, ◌>>◌, pure, raise, get,
  modify, handle, next_turn, await, await_or_raise,
}
use live_kit_voice_agent.Transfer.Engine.Steps.{
  advance, say_to_caller, ignore_illegal, try_advance, hang_up,
}
use live_kit_voice_agent.Transfer.Engine.Run.{fail, after_whisper, bridge_unless_abandoned}
use live_kit_voice_agent.Transfer.Engine.Frame.{fail-Frames}

-- A computation that does not hang up.
record Stays {A : Type 0} (m : M A) : Type 0 where
  kept : (w : World) → (m w).1.hung_up ≡ w.hung_up

module _ {A B : Type 0} where
  continue-Stays :
      (u : World) (r : Outcome A × World) (f : A → M B)
      → r.1.hung_up ≡ u.hung_up
      → ((a : A) → Stays (f a))
      → (continue r f).1.hung_up ≡ u.hung_up
  continue-Stays u (done a, w) f e h = (h a).kept w ∙ e
  continue-Stays u (raised x, w) f e h = e
  continue-Stays u (out_of_fuel, w) f e h = e

  bind-Stays : {m : M A} {f : A → M B} → Stays m → ((a : A) → Stays (f a)) → Stays (m >>= f)
  unfolding ◌>>=◌
  bind-Stays {m} {f} h k = record { kept = λ w. continue-Stays w (m w) f (h.kept w) k }

then-Stays : {B : Type 0} {m : M (Unit {0})} {k : M B} → Stays m → Stays k → Stays (m >> k)
unfolding ◌>>◌
then-Stays h g = bind-Stays h (λ _. g)

pure-Stays : {A : Type 0} (a : A) → Stays (pure a)
unfolding pure
pure-Stays a = record { kept = λ w. refl }

raise-Stays : {A : Type 0} (r : Raise) → Stays {A = A} (raise r)
unfolding raise
raise-Stays r = record { kept = λ w. refl }

get-Stays : Stays get
unfolding get
get-Stays = record { kept = λ w. refl }

modify-Stays : (f : World → World) → ((w : World) → (f w).hung_up ≡ w.hung_up) → Stays (modify f)
unfolding modify
modify-Stays f h = record { kept = h }

if-Stays : {A : Type 0} (b : Bool) {m n : M A} → Stays m → Stays n → Stays (if b then m else n)
if-Stays true h k = h
if-Stays false h k = k

abandon-hung_up : (w : World) → (abandon w).hung_up ≡ w.hung_up
unfolding abandon
abandon-hung_up w = ground arith

if-applied :
    {A : Type 0} (b : Bool) (m n : M A) (w : World) → b ≡ true → (if b then m else n) w ≡ m w
if-applied true m n w h = refl
if-applied false m n w h = cc

module _ (c : Context) where
  deliver-hung_up : (w : World) (e : External) → (deliver c w e).hung_up ≡ w.hung_up
  unfolding deliver
  deliver-hung_up w caller_gone = abandon-hung_up w
  deliver-hung_up w human_gone = ground arith
  deliver-hung_up w (digit d) = ground arith

  deliver_all-hung_up : (w : World) (es : List External) → (deliver_all c w es).hung_up ≡ w.hung_up
  unfolding deliver_all
  deliver_all-hung_up w [] = refl
  deliver_all-hung_up w (e ∷ es) = deliver_all-hung_up (deliver c w e) es ∙ deliver-hung_up w e

  await-Stays : Stays (await c)
  unfolding await
  await-Stays = record {
    kept = λ w.
        let (t, rest) = next_turn w.feed in
        deliver_all-hung_up (record w { feed = rest; clock = w.clock + t.elapsed }) t.externals;
  }

  await_or_raise-Stays : Stays (await_or_raise c)
  unfolding await_or_raise
  await_or_raise-Stays =
      bind-Stays await-Stays (λ t. if-Stays t.raises (raise-Stays other) (pure-Stays tt))

  advance-Stays : (to : TransferStatus) (f : Fields) → Stays (advance c to f)
  unfolding advance
  advance-Stays to f = bind-Stays get-Stays (λ w.
      then-Stays (if-Stays (not (is_legal w.status to)) (raise-Stays illegal) (pure-Stays tt))
        (then-Stays await_or_raise-Stays (modify-Stays _ (λ v. refl))))

  ignored-hung_up :
      (r : Outcome (Unit {0}) × World) → (handle r (ignore_illegal c)).1.hung_up ≡ r.1.hung_up
  unfolding pure raise
  ignored-hung_up (done a, w) = refl
  ignored-hung_up (raised illegal, w) = refl
  ignored-hung_up (raised other, w) = refl
  ignored-hung_up (out_of_fuel, w) = refl

  try_advance-Stays : (to : TransferStatus) (f : Fields) → Stays (try_advance c to f)
  unfolding try_advance
  try_advance-Stays to f = record {
    kept = λ w. ignored-hung_up (advance c to f w) ∙ (advance-Stays to f).kept w;
  }

  say_to_caller-Stays : (t : Text) → Stays (say_to_caller c t)
  unfolding say_to_caller
  say_to_caller-Stays t =
      then-Stays (modify-Stays _ (λ w. refl))
        (then-Stays await_or_raise-Stays (modify-Stays _ (λ w. refl)))

  hang_up_if-Stays : (b : Bool) → b ≡ false → Stays (if b then hang_up c else pure tt)
  hang_up_if-Stays true h = cc
  hang_up_if-Stays false h = pure-Stays tt

  fail-Stays :
      (s : TransferStatus) (p : FallbackPlan) → p.hangup ≡ false → Stays (fail c s (some p))
  unfolding fail
  fail-Stays s p h = then-Stays (try_advance-Stays s _) (
      then-Stays (modify-Stays _ (λ w. refl)) (
        then-Stays (if-Stays (is_truthy p.spoken) (say_to_caller-Stays p.spoken) (pure-Stays tt))
          (hang_up_if-Stays p.hangup h)))

  after_whisper-fail :
      (d : TransferDestinationInfo) (p : FallbackPlan) (whisper_ms : ℕ) (w : World)
      → w.human_left ≡ true
      → w.skip ≡ false
      → plan_fallback agent_rejected c.fallback c.destinations (d.id ∷ []) ≡ some p
      → after_whisper c d whisper_ms w ≡ fail c agent_rejected (some p) w
  unfolding after_whisper get ◌>>=◌
  after_whisper-fail d p whisper_ms w left unskipped planned =
      if-applied (w.human_left && not w.skip)
        (fail c agent_rejected (plan_fallback agent_rejected c.fallback c.destinations (d.id ∷ [])))
        (bridge_unless_abandoned c whisper_ms) w (ground arith)
      ∙ ap (λ o. fail c agent_rejected o w) planned

  -- Where the human has left during the whisper, with no digit to skip it, and the plan names a
  -- destination to dial, so that it does not hang up, the transfer neither dials that destination nor
  -- hangs up.
  pub after_whisper_silent :
      (d : TransferDestinationInfo) (p : FallbackPlan) (whisper_ms : ℕ) (w : World)
      → w.human_left ≡ true
      → w.skip ≡ false
      → plan_fallback agent_rejected c.fallback c.destinations (d.id ∷ []) ≡ some p
      → p.hangup ≡ false
      → let v = (after_whisper c d whisper_ms w).1 in
        (v.dialled ≡ w.dialled) × (v.hung_up ≡ w.hung_up)
  after_whisper_silent d p whisper_ms w left unskipped planned stays =
      let same = after_whisper-fail d p whisper_ms w left unskipped planned in
      (
        ap (λ r. r.1.dialled) same ∙ ((fail-Frames c agent_rejected (some p)).frame w).dialled,
        ap (λ r. r.1.hung_up) same ∙ (fail-Stays agent_rejected p stays).kept w,
      )
