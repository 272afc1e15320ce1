-- ===== src/Transfer/Engine/Answered.antt =====
-- What the engine does once the human answers: it dials no one, and the legs are set apart before the
-- whisper, or it is on record that they were not.
use live_kit_voice_agent.Prelude.{
  ℕ, ◌≡◌, refl, ◌∙◌, Bool, true, false, not, ◌&&◌, ◌||◌, if◌then◌else◌, arith, Bool-cases, inl, inr,
}
use live_kit_voice_agent.Transfer.Status.{whispering_summary, agent_rejected, bridged}
use live_kit_voice_agent.Call.State.{human_agent}
use live_kit_voice_agent.Transfer.Destinations.{TransferDestinationInfo}
use live_kit_voice_agent.Transfer.Engine.World.{
  Context, World, Turn, abandon, Outcome, done, raised, out_of_fuel, M, continue, ◌>>=◌, ◌>>◌,
  modify, await, next_turn,
}
use live_kit_voice_agent.Transfer.Engine.Steps.{
  isolate_remote_legs, bridge_remote_legs, whisper_to_agent,
}
use live_kit_voice_agent.Transfer.Engine.Run.{
  bridge, bridge_unless_abandoned, after_whisper, on_answered,
}
use live_kit_voice_agent.Transfer.Engine.Frame.{
  Frame, Frames, ends, abandon-Frame, get-Frames, modify-Frames, if-Frames, pure-Frames,
  await-Frames, await_or_raise-Frames, advance-Frames, patch-Frames, call_state-Frames, fail-Frames,
}

-- A computation with a relation between the worlds before and after it, that does not run out of
-- fuel.
pub record Keeps (R : World → World → Type 0) {A : Type 0} (m : M A) : Type 0 where
  pub rel : (w : World) → R w (m w).1
  pub total : (w : World) → ends (m w).0 ≡ true

module _ {R S T : World → World → Type 0} {A B : Type 0} (weaken : (u v : World) → R u v → T u v)
    (compose : (u v w : World) → R u v → S v w → T u w) where
  continue-rel :
      (u : World) (r : Outcome A × World) (f : A → M B)
      → R u r.1
      → ((a : A) → Keeps S (f a))
      → T u (continue r f).1
  continue-rel u (done a, w) f k h = compose u w (f a w).1 k ((h a).rel w)
  continue-rel u (raised x, w) f k h = weaken u w k
  continue-rel u (out_of_fuel, w) f k h = weaken u w k

  continue-total :
      (r : Outcome A × World) (f : A → M B)
      → ends r.0 ≡ true
      → ((a : A) → Keeps S (f a))
      → ends (continue r f).0 ≡ true
  continue-total (done a, w) f e h = (h a).total w
  continue-total (raised x, w) f e h = refl
  continue-total (out_of_fuel, w) f e h = cc

  pub bind-Keeps :
      {m : M A} {f : A → M B} → Keeps R m → ((a : A) → Keeps S (f a)) → Keeps T (m >>= f)
  unfolding ◌>>=◌
  bind-Keeps {m} {f} k h = record {
    rel = λ w. continue-rel w (m w) f (k.rel w) h;
    total = λ w. continue-total (m w) f (k.total w) h;
  }

-- Where a whisper was overheard, the legs were not isolated.
abbrev pub is_private : World → Bool
is_private w = not w.overheard || w.unisolated

-- No whisper can be overheard unless the legs were not isolated.
abbrev pub is_apart : World → Bool
is_apart w = not w.joined || w.unisolated

-- No dial, and no whisper either.
record Mute (w v : World) : Type 0 where
  dialled : v.dialled ≡ w.dialled
  overheard : v.overheard ≡ w.overheard
  unisolated : v.unisolated ≡ w.unisolated

-- No dial, and no whisper that is overheard where the legs are apart before.
pub record Discreet (w v : World) : Type 0 where
  pub dialled : v.dialled ≡ w.dialled
  pub private : is_apart w ≡ true → is_private w ≡ true → is_private v ≡ true

-- No dial, and no whisper that is overheard.
pub record Private (w v : World) : Type 0 where
  pub dialled : v.dialled ≡ w.dialled
  pub private : is_private w ≡ true → is_private v ≡ true

-- The same, and the legs are apart then.
record Isolates (w v : World) : Type 0 where
  dialled : v.dialled ≡ w.dialled
  private : is_private w ≡ true → is_private v ≡ true
  apart : is_apart v ≡ true

Mute-Frame : (u v : World) → Frame u v → Mute u v
Mute-Frame u v f = record {
  dialled = f.dialled;
  overheard = f.overheard;
  unisolated = f.unisolated;
}

Mute-trans : (u v w : World) → Mute u v → Mute v w → Mute u w
Mute-trans u v w p q = record {
  dialled = q.dialled ∙ p.dialled;
  overheard = q.overheard ∙ p.overheard;
  unisolated = q.unisolated ∙ p.unisolated;
}

is_private-keeps :
    (u v : World)
    → v.overheard ≡ u.overheard
    → v.unisolated ≡ u.unisolated
    → is_private u ≡ true
    → is_private v ≡ true
is_private-keeps u v e f h = ground (arith, e, f, h)

Frame-apart : (u v : World) → Frame u v → is_apart u ≡ true → is_apart v ≡ true
Frame-apart u v f h = let e = f.joined in let g = f.unisolated in ground (arith, e, g, h)

Private-Mute : (u v : World) → Mute u v → Private u v
Private-Mute u v f = record {
  dialled = f.dialled;
  private = is_private-keeps u v f.overheard f.unisolated;
}

Discreet-Mute : (u v : World) → Mute u v → Discreet u v
Discreet-Mute u v f = record {
  dialled = f.dialled;
  private = λ _. is_private-keeps u v f.overheard f.unisolated;
}

Frame-Discreet : (u v w : World) → Frame u v → Discreet v w → Discreet u w
Frame-Discreet u v w f d = record {
  dialled = d.dialled ∙ f.dialled;
  private = λ apart h.
      d.private (Frame-apart u v f apart) (is_private-keeps u v f.overheard f.unisolated h);
}

Discreet-muted : (u v w : World) → Discreet u v → Mute v w → Discreet u w
Discreet-muted u v w d m = record {
  dialled = m.dialled ∙ d.dialled;
  private = λ apart h. is_private-keeps v w m.overheard m.unisolated (d.private apart h);
}

Discreet-self : (u v : World) → Discreet u v → Discreet u v
Discreet-self u v d = d

Frame-Private : (u v w : World) → Frame u v → Private v w → Private u w
Frame-Private u v w f d = record {
  dialled = d.dialled ∙ f.dialled;
  private = λ h. d.private (is_private-keeps u v f.overheard f.unisolated h);
}

isolated_then : (u v w : World) → Isolates u v → Discreet v w → Private u w
isolated_then u v w i d = record {
  dialled = d.dialled ∙ i.dialled;
  private = λ h. d.private i.apart (i.private h);
}

Private-Isolates : (u v : World) → Isolates u v → Private u v
Private-Isolates u v i = record { dialled = i.dialled; private = i.private }

of_Frames : {A : Type 0} {m : M A} → Frames m → Keeps Mute m
of_Frames {m} f = record { rel = λ w. Mute-Frame w (m w).1 (f.frame w); total = f.total }

of_Mute : {A : Type 0} {m : M A} → Keeps Mute m → Keeps Discreet m
of_Mute {m} k = record { rel = λ w. Discreet-Mute w (m w).1 (k.rel w); total = k.total }

of_Muted : {A : Type 0} {m : M A} → Keeps Mute m → Keeps Private m
of_Muted {m} k = record { rel = λ w. Private-Mute w (m w).1 (k.rel w); total = k.total }

Frame-Keeps : {A : Type 0} {m : M A} → Frames m → Keeps Frame m
Frame-Keeps f = record { rel = f.frame; total = f.total }

module _ {A B : Type 0} where
  -- A framed step, then a discreet rest; a discreet step, then a mute rest; two mute ones.
  framed_then :
      {m : M A} {f : A → M B}
      → Frames m
      → ((a : A) → Keeps Discreet (f a))
      → Keeps Discreet (m >>= f)
  framed_then f h =
      bind-Keeps (λ u v k. Discreet-Mute u v (Mute-Frame u v k)) Frame-Discreet (Frame-Keeps f) h

  Discreet-then :
      {m : M A} {f : A → M B}
      → Keeps Discreet m
      → ((a : A) → Keeps Mute (f a))
      → Keeps Discreet (m >>= f)
  Discreet-then k h = bind-Keeps Discreet-self Discreet-muted k h

  Mute-then :
      {m : M A} {f : A → M B} → Keeps Mute m → ((a : A) → Keeps Mute (f a)) → Keeps Mute (m >>= f)
  Mute-then k h = bind-Keeps (λ u v p. p) Mute-trans k h

if-Keeps :
    {R : World → World → Type 0} {A : Type 0} (b : Bool) {m n : M A}
    → Keeps R m
    → Keeps R n
    → Keeps R (if b then m else n)
if-Keeps true h k = h
if-Keeps false h k = k

modify-Mute : {f : World → World} → ((w : World) → Mute w (f w)) → Keeps Mute (modify f)
unfolding modify
modify-Mute h = record { rel = h; total = λ w. refl }

modify-Discreet : {f : World → World} → ((w : World) → Discreet w (f w)) → Keeps Discreet (modify f)
unfolding modify
modify-Discreet h = record { rel = h; total = λ w. refl }

-- The same for a step that returns nothing.
Mute-next : {m k : M (Unit {0})} → Keeps Mute m → Keeps Mute k → Keeps Mute (m >> k)
unfolding ◌>>◌
Mute-next h g = Mute-then h (λ _. g)

framed_next :
    {B : Type 0} {m : M (Unit {0})} {k : M B}
    → Frames m
    → Keeps Discreet k
    → Keeps Discreet (m >> k)
unfolding ◌>>◌
framed_next h g = framed_then h (λ _. g)

Discreet-next :
    {B : Type 0} {m : M (Unit {0})} {k : M B}
    → Keeps Discreet m
    → Keeps Mute k
    → Keeps Discreet (m >> k)
unfolding ◌>>◌
Discreet-next h g = Discreet-then h (λ _. g)

module _ (c : Context) where
  bridge_remote_legs-Mute : Keeps Mute (bridge_remote_legs c)
  unfolding bridge_remote_legs
  bridge_remote_legs-Mute =
      if-Keeps (c.has_room && c.has_caller)
        (Mute-then (of_Frames (await-Frames c))
          (λ t. modify-Mute (λ w. record { dialled = refl; overheard = refl; unisolated = refl })))
        (of_Frames (pure-Frames tt))

  bridge-Mute : (ms : ℕ) → Keeps Mute (bridge c ms)
  unfolding bridge
  bridge-Mute ms =
      Mute-next (modify-Mute (λ w. record { dialled = refl; overheard = refl; unisolated = refl }))
        (Mute-next (of_Frames (if-Frames c.has_room (await_or_raise-Frames c) (pure-Frames tt))) (
          Mute-next bridge_remote_legs-Mute (
            Mute-then (of_Frames (await-Frames c)) (λ _.
              Mute-next
                (modify-Mute (λ w. record { dialled = refl; overheard = refl; unisolated = refl }))
                (Mute-then (of_Frames get-Frames) (λ w.
                  Mute-next (of_Frames (advance-Frames c bridged _))
                    (of_Frames (call_state-Frames c human_agent))))))))

  abandon-Mute : Keeps Mute (modify abandon)
  abandon-Mute = of_Frames (modify-Frames abandon-Frame)

  bridge_unless_abandoned-Mute : (ms : ℕ) → Keeps Mute (bridge_unless_abandoned c ms)
  unfolding bridge_unless_abandoned
  bridge_unless_abandoned-Mute ms =
      Mute-then (of_Frames get-Frames) (λ w. if-Keeps w.abandoned abandon-Mute (bridge-Mute ms))

  after_whisper-Mute : (d : TransferDestinationInfo) (ms : ℕ) → Keeps Mute (after_whisper c d ms)
  unfolding after_whisper
  after_whisper-Mute d ms = Mute-then (of_Frames get-Frames) (λ w.
      if-Keeps (w.human_left && not w.skip) (of_Frames (fail-Frames c agent_rejected _))
        (bridge_unless_abandoned-Mute ms))

  whisper_to_agent-Discreet : Keeps Discreet (whisper_to_agent c)
  unfolding whisper_to_agent
  whisper_to_agent-Discreet =
      if-Keeps (not (c.has_room && c.has_tts))
        (of_Mute (Mute-then (of_Frames (await-Frames c)) (λ _. of_Frames (pure-Frames 0))))
        (framed_next
          (modify-Frames (λ w. record {
            dialled = refl;
            tried = refl;
            joined = refl;
            overheard = refl;
            unisolated = refl;
          }))
          (framed_next (await_or_raise-Frames c) (
            Discreet-next
              (modify-Discreet (λ w. record { dialled = refl; private = λ apart h. ground arith }))
              (Mute-then (of_Frames (await-Frames c))
                (λ t. Mute-then (of_Frames get-Frames) (λ w. of_Frames (pure-Frames _)))))))

  set_apart-Isolates :
      (t : Turn)
      → Keeps Isolates (
          modify
            (λ v. if t.raises then record v { unisolated = true } else record v { joined = false }))
  unfolding modify
  set_apart-Isolates t = record {
    rel = λ w. elim (Bool-cases t.raises) [
      | inl e ↦ rw e (record { dialled = refl; private = λ h. ground arith; apart = ground arith })
      | inr e ↦ rw e (record { dialled = refl; private = λ h. h; apart = refl })
    ];
    total = λ w. refl;
  }

  Frame-Isolates : (u v w : World) → Frame u v → Isolates v w → Isolates u w
  Frame-Isolates u v w f i = record {
    dialled = i.dialled ∙ f.dialled;
    private = λ h. i.private (is_private-keeps u v f.overheard f.unisolated h);
    apart = i.apart;
  }

  isolate-Isolates : Keeps Isolates (
      await c >>= λ t.
      modify
        (λ v. if t.raises then record v { unisolated = true } else record v { joined = false }))
  unfolding ◌>>=◌ await
  isolate-Isolates = record {
    rel = λ w.
        let r = await c w in
        let t = (next_turn w.feed).0 in
        Frame-Isolates w r.1 _ ((await-Frames c).frame w) ((set_apart-Isolates t).rel r.1);
    total = λ w. unfold modify in refl;
  }

  no_caller-Isolates : Keeps Isolates (modify (λ v. record v { unisolated = true }))
  unfolding modify
  no_caller-Isolates = record {
    rel = λ w. record { dialled = refl; private = λ h. ground arith; apart = ground arith };
    total = λ w. refl;
  }

  isolate_remote_legs-Private :
      {k : M (Unit {0})} → Keeps Discreet k → Keeps Private (isolate_remote_legs c >> k)
  unfolding isolate_remote_legs ◌>>◌
  isolate_remote_legs-Private {k} h =
      bind-Keeps Private-Isolates isolated_then
        (if-Keeps (c.has_room && c.has_caller) isolate-Isolates no_caller-Isolates) (λ _. h)

  -- Once the human has answered no one else is dialled, and no whisper is overheard unless the legs
  -- were not isolated.
  pub on_answered-Private : (d : TransferDestinationInfo) → Keeps Private (on_answered c d)
  unfolding on_answered
  on_answered-Private d =
      bind-Keeps (λ u v f. Private-Mute u v (Mute-Frame u v f)) Frame-Private
        (Frame-Keeps get-Frames)
        (λ w. if-Keeps w.abandoned (of_Muted abandon-Mute) (
          isolate_remote_legs-Private (
            framed_then (await-Frames c) (λ _. framed_next (patch-Frames c _) (
              framed_next (advance-Frames c whispering_summary _) (
                if-Keeps d.whisper_summary
                  (Discreet-then whisper_to_agent-Discreet (after_whisper-Mute d))
                  (of_Mute (bridge_unless_abandoned-Mute 0))))))))
