-- ===== src/Transfer/Engine/World.antt =====
-- The state of one warm transfer, and what happens while it waits. A method of the engine runs until
-- it awaits something; each await takes one `Turn`, which lists what other tasks do meanwhile (the
-- caller hangs up, the human leaves, a DTMF digit comes), how long it takes, and whether the thing
-- awaited raises. A feed with no turns left is a feed of uneventful turns.
use live_kit_voice_agent.Prelude.{
  ℕ, ◌+◌, Bool, true, false, not, ◌&&◌, ◌||◌, Option, none, some, List, [], ◌∷◌, if◌then◌else◌,
}
use live_kit_voice_agent.Prelude.Text.{Text, text, text_eq, strip, is_truthy}
use live_kit_voice_agent.Call.Tracker.{Tracker}
use live_kit_voice_agent.Transfer.Status.{
  TransferStatus, TransferRow, no_fields, update_row, is_in, requested, announcing, dialing_agent,
  whispering_summary, bridged, not_requested, abandoned,
}
use live_kit_voice_agent.Transfer.Destinations.{TransferDestinationInfo}
use live_kit_voice_agent.Transfer.Fallback.{TransferFallback}
use live_kit_voice_agent.Transfer.Dial.{LiveKitApi}

-- What `CallContext` and the constructor's arguments give the engine. The summary is the one that
-- `generate_transfer_summary` returns, which catches its own failures.
pub record Context : Type 0 where
  pub enabled : Bool
  pub announcement_text : Option Text
  pub summary_max_seconds : ℕ
  pub skip_dtmf : Option Text
  pub destinations : List TransferDestinationInfo
  pub fallback : Option TransferFallback
  pub has_room : Bool
  pub has_caller : Bool  -- when the human answers, the room shows a participant other than the human
  pub has_tts : Bool
  pub summary_fields : Text
  pub summary_spoken : Text
  pub livekit : LiveKitApi

-- What another task does during an await.
pub data External : Type 0 where
  caller_gone human_gone : External
  digit : Text → External

pub record Turn : Type 0 where
  pub externals : List External
  pub elapsed : ℕ
  pub raises : Bool
  pub played : Option ℕ  -- milliseconds, where the await is that of the whisper

abbrev pub quiet : Turn
quiet = record { externals = []; elapsed = 0; raises = false; played = none }

-- The attributes of the object, the row and the tracker that it writes, and what it has done.
pub record World : Type 0 where
  pub status : TransferStatus
  pub row : TransferRow
  pub tracker : Option Tracker
  pub hold : Bool
  pub whisper : Bool
  pub skip : Bool
  pub abandoned : Bool
  pub human_left : Bool
  pub bridged : Bool
  pub dtmf_bound : Bool
  pub tried : List ℕ
  pub clock : ℕ
  pub feed : List Turn
  pub dialled : List ℕ  -- the newest first, as the next two
  pub said : List Text
  pub whispered : List Text
  pub joined : Bool  -- a leg may hear the other
  pub unisolated : Bool  -- the legs were not set apart: no caller was found, or the request failed
  pub overheard : Bool  -- a whisper was played while a leg might hear the other
  pub ai_left : Bool
  pub hung_up : Bool

abbrev pub transfer_can_abandon : List TransferStatus
transfer_can_abandon = requested ∷ announcing ∷ dialing_agent ∷ whispering_summary ∷ []

-- `_stop_audio`, which catches every exception.
abbrev pub stop_audio : World → World
stop_audio w = record w { hold = false; whisper = false }

-- `abandon`. It advances only from a status that allows it, so its own check never raises.
unfoldable pub abandon : World → World
abandon w =
    if w.bridged || is_in w.status (bridged ∷ abandoned ∷ not_requested ∷ [])
    then w
    else if is_in w.status transfer_can_abandon
    then stop_audio (record w {
      abandoned = true;
      row = update_row w.row abandoned no_fields;
      status = abandoned;
    })
    else stop_audio (record w { abandoned = true })

-- `(skip_dtmf or "1").strip() or "1"`
unfoldable pub skip_digit : Option Text → Text
skip_digit none = text "1"
skip_digit (some t) = if is_truthy (strip t) then strip t else text "1"

unfoldable pub deliver : Context → World → External → World
unfolding abandon
deliver c w caller_gone = abandon w
deliver c w human_gone = if w.dtmf_bound && not w.bridged then record w { human_left = true } else w
deliver c w (digit d) =
    if w.dtmf_bound && text_eq d (skip_digit c.skip_dtmf) then record w { skip = true } else w

unfoldable pub deliver_all : Context → World → List External → World
deliver_all c w [] = w
deliver_all c w (e ∷ es) = deliver_all c (deliver c w e) es

pub data Raise : Type 0 where
  illegal other : Raise

pub data Outcome {ℓ} (A : Type ℓ) : Type ℓ where
  done : A → Outcome A
  raised : Raise → Outcome A
  out_of_fuel : Outcome A

abbrev pub M : Type 0 → Type 0
M A = World → Outcome A × World

abbrev pub continue : {A B : Type 0} → Outcome A × World → (A → M B) → Outcome B × World
continue (done a, w) f = f a w
continue (raised r, w) f = (raised r, w)
continue (out_of_fuel, w) f = (out_of_fuel, w)

-- Shut, so that a proof takes a method apart by its steps.
infixl 5 ◌>>=◌ ◌>>◌
unfoldable pub ◌>>=◌ : {A B : Type 0} → M A → (A → M B) → M B
◌>>=◌ m f w = continue (m w) f

unfoldable pub ◌>>◌ : {B : Type 0} → M (Unit {0}) → M B → M B
m >> k = m >>= λ _. k

unfoldable pub pure : {A : Type 0} → A → M A
pure a w = (done a, w)

unfoldable pub raise : {A : Type 0} → Raise → M A
raise r w = (raised r, w)

unfoldable pub get : M World
get w = (done w, w)

unfoldable pub modify : (World → World) → M (Unit {0})
modify f w = (done tt, f w)

-- `try: m except …: handler`
abbrev pub handle : {A : Type 0} → Outcome A × World → (Raise → M A) → Outcome A × World
handle (done a, w) h = (done a, w)
handle (raised r, w) h = h r w
handle (out_of_fuel, w) h = (out_of_fuel, w)

abbrev pub next_turn : List Turn → Turn × List Turn
next_turn [] = (quiet, [])
next_turn (t ∷ ts) = (t, ts)

-- One await: the others act, time passes, and the turn is returned.
unfoldable pub await : Context → M Turn
unfolding deliver_all
await c w =
    let (t, rest) = next_turn w.feed in
    (done t, deliver_all c (record w { feed = rest; clock = w.clock + t.elapsed }) t.externals)

-- An await of something that may raise.
unfoldable pub await_or_raise : Context → M (Unit {0})
unfolding await
await_or_raise c = do t ← await c; if t.raises then raise other else pure tt
