-- ===== src/Transfer/Engine/Frame.antt =====
-- What the methods of the engine leave alone: all but the dial, the whisper and the bridge keep the
-- record of dials, the destinations tried and the connection of the legs, whatever happens meanwhile.
use live_kit_voice_agent.Prelude.{
  ℕ, ◌+◌, ◌≡◌, refl, ◌∙◌, Bool, true, false, not, ◌&&◌, Option, none, some, List, [], ◌∷◌,
  if◌then◌else◌, arith,
}
use live_kit_voice_agent.Prelude.Text.{Text, is_truthy}
use live_kit_voice_agent.Call.State.{CallState, completed, is_terminal}
use live_kit_voice_agent.Call.Tracker.{Tracker, Error, database_error, illegal_transition}
use live_kit_voice_agent.Transfer.Status.{TransferStatus, Fields, is_legal}
use live_kit_voice_agent.Transfer.Fallback.{FallbackPlan}
use live_kit_voice_agent.Transfer.Engine.Run.{fail}
use live_kit_voice_agent.Transfer.Engine.World.{
  Context, External, caller_gone, human_gone, digit, World, abandon, deliver, deliver_all, Raise,
  illegal, other, Outcome, done, raised, out_of_fuel, M, continue, ◌>>=◌, ◌>>◌, pure, raise, get,
  modify, handle, next_turn, await, await_or_raise,
}
use live_kit_voice_agent.Transfer.Engine.Steps.{
  advance, patch, call_state, say_to_caller, start_hold, record_transition, transition_tracker,
  complete_call, hang_up, fallback_spoken, fallback_hangup, ignore_illegal, try_advance,
}

pub record Frame (w v : World) : Type 0 where
  pub dialled : v.dialled ≡ w.dialled
  pub tried : v.tried ≡ w.tried
  pub joined : v.joined ≡ w.joined
  pub overheard : v.overheard ≡ w.overheard
  pub unisolated : v.unisolated ≡ w.unisolated

pub Frame-refl : (w : World) → Frame w w
Frame-refl w = record {
  dialled = refl;
  tried = refl;
  joined = refl;
  overheard = refl;
  unisolated = refl;
}

pub Frame-trans : {u v w : World} → Frame u v → Frame v w → Frame u w
Frame-trans f g = record {
  dialled = g.dialled ∙ f.dialled;
  tried = g.tried ∙ f.tried;
  joined = g.joined ∙ f.joined;
  overheard = g.overheard ∙ f.overheard;
  unisolated = g.unisolated ∙ f.unisolated;
}

abbrev pub ends {ℓ} : {A : Type ℓ} → Outcome A → Bool
ends (done _) = true
ends (raised _) = true
ends out_of_fuel = false

-- A computation that does not run out of fuel, and whose last world is framed by its first.
pub record Frames {A : Type 0} (m : M A) : Type 0 where
  pub frame : (w : World) → Frame w (m w).1
  pub total : (w : World) → ends (m w).0 ≡ true

module _ {A B : Type 0} where
  continue-Frame :
      {u : World} (r : Outcome A × World) (f : A → M B)
      → Frame u r.1
      → ((a : A) → Frames (f a))
      → Frame u (continue r f).1
  continue-Frame (done a, w) f k h = Frame-trans k ((h a).frame w)
  continue-Frame (raised x, w) f k h = k
  continue-Frame (out_of_fuel, w) f k h = k

  continue-ends :
      (r : Outcome A × World) (f : A → M B)
      → ends r.0 ≡ true
      → ((a : A) → Frames (f a))
      → ends (continue r f).0 ≡ true
  continue-ends (done a, w) f e h = (h a).total w
  continue-ends (raised x, w) f e h = refl
  continue-ends (out_of_fuel, w) f e h = cc

  pub bind-Frames : {m : M A} {f : A → M B} → Frames m → ((a : A) → Frames (f a)) → Frames (m >>= f)
  unfolding ◌>>=◌
  bind-Frames {m} {f} k h = record {
    frame = λ w. continue-Frame (m w) f (k.frame w) h;
    total = λ w. continue-ends (m w) f (k.total w) h;
  }

pub then-Frames : {B : Type 0} {m : M (Unit {0})} {k : M B} → Frames m → Frames k → Frames (m >> k)
unfolding ◌>>◌
then-Frames h g = bind-Frames h (λ _. g)

pub if-Frames :
    {A : Type 0} (b : Bool) {m n : M A} → Frames m → Frames n → Frames (if b then m else n)
if-Frames true h k = h
if-Frames false h k = k

pub pure-Frames : {A : Type 0} (a : A) → Frames (pure a)
unfolding pure
pure-Frames a = record { frame = Frame-refl; total = λ w. refl }

pub raise-Frames : {A : Type 0} (r : Raise) → Frames {A = A} (raise r)
unfolding raise
raise-Frames r = record { frame = Frame-refl; total = λ w. refl }

pub get-Frames : Frames get
unfolding get
get-Frames = record { frame = Frame-refl; total = λ w. refl }

pub modify-Frames : {f : World → World} → ((w : World) → Frame w (f w)) → Frames (modify f)
unfolding modify
modify-Frames h = record { frame = h; total = λ w. refl }

pub handle-Frame :
    {A : Type 0} {u : World} (r : Outcome A × World) (h : Raise → M A)
    → Frame u r.1
    → ((x : Raise) → Frames (h x))
    → Frame u (handle r h).1
handle-Frame (done a, w) h k g = k
handle-Frame (raised x, w) h k g = Frame-trans k ((g x).frame w)
handle-Frame (out_of_fuel, w) h k g = k

pub handle-ends :
    {A : Type 0} (r : Outcome A × World) (h : Raise → M A)
    → ends r.0 ≡ true
    → ((x : Raise) → Frames (h x))
    → ends (handle r h).0 ≡ true
handle-ends (done a, w) h e g = refl
handle-ends (raised x, w) h e g = (g x).total w
handle-ends (out_of_fuel, w) h e g = cc

pub abandon-Frame : (w : World) → Frame w (abandon w)
unfolding abandon
abandon-Frame w = ground arith

module _ (c : Context) where
  deliver-Frame : (w : World) (e : External) → Frame w (deliver c w e)
  unfolding deliver
  deliver-Frame w caller_gone = abandon-Frame w
  deliver-Frame w human_gone = ground arith
  deliver-Frame w (digit d) = ground arith

  deliver_all-Frame : (w : World) (es : List External) → Frame w (deliver_all c w es)
  unfolding deliver_all
  deliver_all-Frame w [] = Frame-refl w
  deliver_all-Frame w (e ∷ es) =
      Frame-trans (deliver-Frame w e) (deliver_all-Frame (deliver c w e) es)

  pub await-Frames : Frames (await c)
  unfolding await
  await-Frames = record {
    frame = λ w.
        let (t, rest) = next_turn w.feed in
        Frame-trans
          (record {
            dialled = refl;
            tried = refl;
            joined = refl;
            overheard = refl;
            unisolated = refl;
          })
          (deliver_all-Frame (record w { feed = rest; clock = w.clock + t.elapsed }) t.externals);
    total = λ w. refl;
  }

  pub await_or_raise-Frames : Frames (await_or_raise c)
  unfolding await_or_raise
  await_or_raise-Frames =
      bind-Frames await-Frames (λ t. if-Frames t.raises (raise-Frames other) (pure-Frames tt))

  pub advance-Frames : (to : TransferStatus) (f : Fields) → Frames (advance c to f)
  unfolding advance
  advance-Frames to f = bind-Frames get-Frames (λ w.
      then-Frames (if-Frames (not (is_legal w.status to)) (raise-Frames illegal) (pure-Frames tt)) (
        then-Frames await_or_raise-Frames (
          modify-Frames (λ v. record {
            dialled = refl;
            tried = refl;
            joined = refl;
            overheard = refl;
            unisolated = refl;
          }))))

  pub patch-Frames : (f : Fields) → Frames (patch c f)
  unfolding patch
  patch-Frames f = bind-Frames get-Frames (λ w. then-Frames await_or_raise-Frames (
      modify-Frames (λ v. record {
        dialled = refl;
        tried = refl;
        joined = refl;
        overheard = refl;
        unisolated = refl;
      })))

  pub say_to_caller-Frames : (t : Text) → Frames (say_to_caller c t)
  unfolding say_to_caller
  say_to_caller-Frames t =
      then-Frames
        (modify-Frames (λ v. record {
          dialled = refl;
          tried = refl;
          joined = refl;
          overheard = refl;
          unisolated = refl;
        }))
        (then-Frames await_or_raise-Frames (
          modify-Frames (λ v. record {
            dialled = refl;
            tried = refl;
            joined = refl;
            overheard = refl;
            unisolated = refl;
          })))

  pub start_hold-Frames : Frames (start_hold c)
  unfolding start_hold
  start_hold-Frames = if-Frames (not (c.has_room && c.has_tts)) (pure-Frames tt) (
      then-Frames
        (modify-Frames (λ v. record {
          dialled = refl;
          tried = refl;
          joined = refl;
          overheard = refl;
          unisolated = refl;
        }))
        await_or_raise-Frames)

  record_transition-Frames : (r : Tracker × Option Error) → Frames (record_transition c r)
  unfolding record_transition
  record_transition-Frames (new, none) = modify-Frames (λ v. record {
    dialled = refl;
    tried = refl;
    joined = refl;
    overheard = refl;
    unisolated = refl;
  })
  record_transition-Frames (new, some illegal_transition) = pure-Frames tt
  record_transition-Frames (new, some database_error) = raise-Frames other

  transition_tracker-Frames :
      (s : CallState) (now : ℕ) (db_accepts : Bool) (o : Option Tracker)
      → Frames (transition_tracker c s now db_accepts o)
  unfolding transition_tracker
  transition_tracker-Frames s now db_accepts none = pure-Frames tt
  transition_tracker-Frames s now db_accepts (some old) = record_transition-Frames _

  pub call_state-Frames : (s : CallState) → Frames (call_state c s)
  unfolding call_state
  call_state-Frames s = bind-Frames await-Frames (λ t.
      bind-Frames get-Frames (λ w. transition_tracker-Frames s w.clock (not t.raises) w.tracker))

  complete_call-Frames : (o : Option Tracker) → Frames (complete_call c o)
  unfolding complete_call
  complete_call-Frames none = pure-Frames tt
  complete_call-Frames (some old) =
      if-Frames (is_terminal old.state) (pure-Frames tt) (call_state-Frames completed)

  pub hang_up-Frames : Frames (hang_up c)
  unfolding hang_up
  hang_up-Frames = bind-Frames await-Frames (λ t.
      then-Frames
        (modify-Frames (λ v. record {
          dialled = refl;
          tried = refl;
          joined = refl;
          overheard = refl;
          unisolated = refl;
        }))
        (bind-Frames get-Frames (λ w. complete_call-Frames w.tracker)))

  ignore_illegal-Frames : (r : Raise) → Frames (ignore_illegal c r)
  ignore_illegal-Frames illegal = pure-Frames tt
  ignore_illegal-Frames other = raise-Frames other

  pub try_advance-Frames : (to : TransferStatus) (f : Fields) → Frames (try_advance c to f)
  unfolding try_advance
  try_advance-Frames to f =
      let h = advance-Frames to f in
      record {
        frame = λ w.
            handle-Frame (advance c to f w) (ignore_illegal c) (h.frame w) ignore_illegal-Frames;
        total = λ w.
            handle-ends (advance c to f w) (ignore_illegal c) (h.total w) ignore_illegal-Frames;
      }

  pub fail-Frames :
      (status : TransferStatus) (plan : Option FallbackPlan) → Frames (fail c status plan)
  unfolding fail
  fail-Frames status plan = then-Frames (try_advance-Frames status _) (
      then-Frames
        (modify-Frames (λ v. record {
          dialled = refl;
          tried = refl;
          joined = refl;
          overheard = refl;
          unisolated = refl;
        }))
        (then-Frames
          (if-Frames (is_truthy (fallback_spoken c plan))
            (say_to_caller-Frames (fallback_spoken c plan)) (pure-Frames tt))
          (if-Frames (fallback_hangup c plan) hang_up-Frames (pure-Frames tt))))
